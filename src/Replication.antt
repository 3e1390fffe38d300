-- ===== src/Replication.antt =====
-- src/replication.rs: the payloads of replication inside CopyData.
pub mod Accessors
pub mod RoundTrip
use pg_proto.Base.{
  ℕ, ◌≡◌, Bool, true, false, not, ltb, ◌==◌, if◌then◌else◌, List, [], ◌∷◌, ◌++◌, length, Bytes, ℤ,
  Result, ok, err, ◌>>=◌, ◌>>◌,
}
use Prim.Native.String.{String}
use pg_proto.Wire.{Wire}
use pg_proto.Codec.Primitives.{invalid}
use pg_proto.Replication.Accessors.{WideWire}

pub data BackendReplication : Type 0 where
  xlog_data : ℕ → ℕ → ℤ → Bytes → BackendReplication
  primary_keepalive : ℕ → ℤ → Bool → BackendReplication
  unknown : ℕ → Bytes → BackendReplication

pub data FrontendReplication : Type 0 where
  standby_status : ℕ → ℕ → ℕ → ℤ → Bool → FrontendReplication
  hot_standby_feedback : ℤ → ℕ → ℕ → ℕ → ℕ → FrontendReplication
  unknown : ℕ → Bytes → FrontendReplication

-- `take_tag` and `get_u8`, which take the first byte.
unfoldable pub take_tag : Bytes → Result (ℕ × Bytes)
take_tag [] = err (invalid "empty replication payload")
take_tag (tag ∷ payload) = ok (tag, payload)

unfoldable pub take_bool : ℕ → Result Bool
take_bool value =
    if value == 0
    then ok false
    else if value == 1
    then ok true
    else err (invalid "invalid replication Boolean")

unfoldable pub require_at_least : Bytes → ℕ → String → Result (Unit {0})
require_at_least payload minimum message =
    if ltb (length payload) minimum then err (invalid message) else ok tt

unfoldable pub require_exact : Bytes → ℕ → String → Result (Unit {0})
require_exact payload size message = if length payload == size then ok tt else err (invalid message)

-- `u8::from`.
abbrev pub bool_byte : Bool → ℕ
bool_byte true = 1
bool_byte false = 0

-- `get_u8` on what a check of the length has left: one byte.
unfoldable pub take_flag : Bytes → Result Bool
unfolding take_bool
take_flag [] = err (invalid "empty replication payload")
take_flag (value ∷ rest) = take_bool value

module _ ⦃w : Wire⦄ ⦃x : WideWire⦄ where
  unfoldable pub read_xlog_data : Bytes → BackendReplication
  read_xlog_data payload =
      let (wal_start, payload) = x.get_u64 payload in
      let (wal_end, payload) = x.get_u64 payload in
      let (server_time, payload) = x.get_i64 payload in
      BackendReplication.xlog_data wal_start wal_end server_time payload

  unfoldable pub read_keepalive : Bytes → Result BackendReplication
  unfolding take_flag
  read_keepalive payload =
      let (wal_end, payload) = x.get_u64 payload in
      let (server_time, payload) = x.get_i64 payload in
      take_flag payload >>= λ reply_requested.
      ok (BackendReplication.primary_keepalive wal_end server_time reply_requested)

  unfoldable pub decode_backend_tagged : ℕ → Bytes → Result BackendReplication
  unfolding require_at_least require_exact read_xlog_data read_keepalive
  decode_backend_tagged tag payload =
      if tag == b'w'
      then require_at_least payload 24 "truncated XLogData" >> ok (read_xlog_data payload)
      else if tag == b'k'
      then require_exact payload 17 "invalid primary keepalive length" >> read_keepalive payload
      else ok (BackendReplication.unknown tag payload)

  unfoldable pub decode_backend : Bytes → Result BackendReplication
  unfolding take_tag decode_backend_tagged
  decode_backend payload = take_tag payload >>= λ (tag, payload). decode_backend_tagged tag payload

  unfoldable pub encode_backend : BackendReplication → Bytes
  encode_backend (BackendReplication.xlog_data wal_start wal_end server_time contents) =
      b'w' ∷ x.put_u64 wal_start ++ (x.put_u64 wal_end ++ (x.put_i64 server_time ++ contents))
  encode_backend (BackendReplication.primary_keepalive wal_end server_time reply_requested) =
      b'k' ∷ x.put_u64 wal_end ++ (x.put_i64 server_time ++ (bool_byte reply_requested ∷ []))
  encode_backend (BackendReplication.unknown tag body) = tag ∷ body

  unfoldable pub read_standby_status : Bytes → Result FrontendReplication
  unfolding take_flag
  read_standby_status payload =
      let (written, payload) = x.get_u64 payload in
      let (flushed, payload) = x.get_u64 payload in
      let (applied, payload) = x.get_u64 payload in
      let (client_time, payload) = x.get_i64 payload in
      take_flag payload >>= λ reply_requested.
      ok (FrontendReplication.standby_status written flushed applied client_time reply_requested)

  unfoldable pub read_feedback : Bytes → FrontendReplication
  read_feedback payload =
      let (client_time, payload) = x.get_i64 payload in
      let (xmin, payload) = w.get_u32 payload in
      let (xmin_epoch, payload) = w.get_u32 payload in
      let (catalog_xmin, payload) = w.get_u32 payload in
      let (catalog_xmin_epoch, payload) = w.get_u32 payload in
      FrontendReplication.hot_standby_feedback client_time xmin xmin_epoch catalog_xmin
        catalog_xmin_epoch

  unfoldable pub decode_frontend_tagged : ℕ → Bytes → Result FrontendReplication
  unfolding require_exact read_standby_status read_feedback
  decode_frontend_tagged tag payload =
      if tag == b'r'
      then require_exact payload 33 "invalid standby status length" >> read_standby_status payload
      else if tag == b'h'
      then require_exact payload 24 "invalid hot standby feedback length"
        >> ok (read_feedback payload)
      else ok (FrontendReplication.unknown tag payload)

  unfoldable pub decode_frontend : Bytes → Result FrontendReplication
  unfolding take_tag decode_frontend_tagged
  decode_frontend payload =
      take_tag payload >>= λ (tag, payload). decode_frontend_tagged tag payload

  unfoldable pub encode_frontend : FrontendReplication → Bytes
  encode_frontend (FrontendReplication.standby_status written flushed applied client_time reply) =
      b'r' ∷ x.put_u64 written
      ++ (x.put_u64 flushed
          ++ (x.put_u64 applied ++ (x.put_i64 client_time ++ (bool_byte reply ∷ []))))
  encode_frontend (FrontendReplication.hot_standby_feedback time xmin epoch catalog catalog_epoch) =
      b'h' ∷ x.put_i64 time
      ++ (w.put_u32 xmin ++ (w.put_u32 epoch ++ (w.put_u32 catalog ++ w.put_u32 catalog_epoch)))
  encode_frontend (FrontendReplication.unknown tag body) = tag ∷ body
