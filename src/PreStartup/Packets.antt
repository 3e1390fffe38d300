-- ===== src/PreStartup/Packets.antt =====
-- src/pre_startup.rs: the packet of a message is read back, with what follows it left.
use pg_proto.Base.{
  ℕ, ◌+◌, ◌/◌, ◌%◌, ◌^◌, ◌≤◌, ◌<◌, ◌≡◌, ◌≢◌, refl, sym, ap, ◌∙◌, [], ◌∷◌, ◌++◌, arith, length, drop,
  Bytes, IsU32, length-append, take-append_length, drop-append_length, ok, map_ok, some,
  u32_to_be_bytes, u32_from_be_bytes, u32_be_bytes,
}
use mathlib.Core.Path.{subst}
use pg_proto.Wire.{Wire}
use pg_proto.OrderedMap.{IsSorted}
use pg_proto.Codec.Primitives.Inverse.{encode_all}
use pg_proto.Startup.{StartupMessage, encode, decode}
use pg_proto.Startup.Parameters.{IsNamed, parameter_bytes}
use pg_proto.Startup.RoundTrip.{
  VersionIsTyped, payload, encode-eq-ok_startup, decode-encode, four_bytes,
}
use pg_proto.PreStartup.{
  PreStartupMessage, leading_word, request_packet, cancel_packet, to_packet, decode_cancel,
  decode_packet, decode_pre_startup_with_limit, cancel_request_code, ssl_request_code,
  gssenc_request_code,
}

leading_word-u32 : (n : ℕ) (rest : Bytes) → IsU32 n → leading_word (u32_to_be_bytes n ++ rest) ≡ n
leading_word-u32 n rest h = u32_be_bytes n h

-- Another version than the one a CancelRequest carries.
abbrev pub IsOrdinary : StartupMessage → Type 0
IsOrdinary m = ¬ ((m.version.major ≡ 1_234) × (m.version.minor ≡ 5_678))

abbrev cancel_bytes : ℕ → Bytes → Bytes
cancel_bytes process_id secret_key =
    u32_to_be_bytes (12 + length secret_key)
    ++ (u32_to_be_bytes cancel_request_code ++ (u32_to_be_bytes process_id ++ secret_key))

module _ ⦃w : Wire⦄ where
  -- A packet that begins with its length is taken whole.
  taken_whole :
      (packet rest : Bytes) (limit : ℕ)
      → 8 ≤ length packet
      → length packet ≤ limit
      → limit < 2 ^ 31
      → leading_word (packet ++ rest) ≡ length packet
      → decode_pre_startup_with_limit (packet ++ rest) limit
        ≡ (map_ok some (decode_packet packet), rest)
  unfolding decode_pre_startup_with_limit
  taken_whole packet rest limit long fits legal declared = ground (
    arith,
    length-append packet rest,
    take-append_length packet rest,
    drop-append_length packet rest,
  )

  abbrev startup_tail : StartupMessage → Bytes
  startup_tail m = encode_all parameter_bytes m.parameters ++ 0 ∷ []

  cancel_packet-eq-ok :
      (process_id : ℕ) (secret_key : Bytes) {packet : Bytes}
      → IsU32 process_id
      → cancel_packet process_id secret_key ≡ ok packet
      → (4 ≤ length secret_key)
        × (length secret_key ≤ 256)
        × (packet ≡ cancel_bytes process_id secret_key)
  unfolding cancel_packet
  cancel_packet-eq-ok process_id secret_key {packet} t h =
      let e1 = w.put_u32_be (12 + length secret_key) in
      let e2 = w.put_u32_be cancel_request_code (omega arith) in
      let e3 = w.put_u32_be process_id t in ground arith

  decode_packet-cancel :
      (process_id : ℕ) (secret_key : Bytes)
      → IsU32 process_id
      → 4 ≤ length secret_key
      → length secret_key ≤ 256
      → decode_packet (cancel_bytes process_id secret_key)
        ≡ ok (PreStartupMessage.cancel_request process_id secret_key)
  unfolding decode_packet decode_cancel
  decode_packet-cancel process_id secret_key t long short =
      let e = u32_be_bytes process_id t in ground arith

  -- A longer packet under another code than the cancellation's is a startup packet.
  decode_packet-other :
      (n a b c d e : ℕ) (rest : Bytes)
      → u32_from_be_bytes a b c d ≢ cancel_request_code
      → decode_packet (u32_to_be_bytes n ++ (a ∷ b ∷ c ∷ d ∷ e ∷ rest))
        ≡ map_ok PreStartupMessage.startup
            (decode (u32_to_be_bytes n ++ (a ∷ b ∷ c ∷ d ∷ e ∷ rest)))
  unfolding decode_packet
  decode_packet-other n a b c d e rest other = ground arith

  parameters_open : (m : StartupMessage) → (e : ℕ) × (rest : Bytes) × (startup_tail m ≡ e ∷ rest)
  parameters_open m = starts (encode_all parameter_bytes m.parameters)
    where
      starts : (b : Bytes) → (e : ℕ) × (rest : Bytes) × (b ++ 0 ∷ [] ≡ e ∷ rest)
      starts [] = (0, [], refl)
      starts (x ∷ b) = (x, b ++ 0 ∷ [], refl)

  payload-bytes :
      (m : StartupMessage)
      → VersionIsTyped m
      → payload m
        ≡ m.version.major / 2 ^ 8 % 2 ^ 8
          ∷ m.version.major % 2 ^ 8
          ∷ m.version.minor / 2 ^ 8 % 2 ^ 8
          ∷ m.version.minor % 2 ^ 8
          ∷ startup_tail m
  payload-bytes m (tm, tn) =
      rw (w.put_u16_be m.version.major tm) (rw (w.put_u16_be m.version.minor tn) refl)

  decode_packet-startup :
      (m : StartupMessage) (n : ℕ)
      → VersionIsTyped m
      → IsOrdinary m
      → decode_packet (u32_to_be_bytes n ++ payload m)
        ≡ map_ok PreStartupMessage.startup (decode (u32_to_be_bytes n ++ payload m))
  decode_packet-startup m n (tm, tn) ordinary =
      let (e, rest, tail) = parameters_open m in
      let bytes = payload-bytes m (tm, tn) in
      rw bytes (
        rw tail (
          decode_packet-other n (m.version.major / 2 ^ 8 % 2 ^ 8) (m.version.major % 2 ^ 8)
            (m.version.minor / 2 ^ 8 % 2 ^ 8) (m.version.minor % 2 ^ 8) e rest
            (λ code. ordinary (omega arith, omega arith))))

  -- What the packet of a message gives back.
  abbrev IsRound : PreStartupMessage → Bytes → Type 0
  IsRound message packet =
      (8 ≤ length packet)
      × ((rest : Bytes) → leading_word (packet ++ rest) ≡ length packet)
      × (decode_packet packet ≡ ok message)

  -- The fields are within their types, and a startup message is one that a `BTreeMap` can hold, with
  -- no empty name and not under the code of a cancellation.
  abbrev pub IsPlain : PreStartupMessage → Type 0
  IsPlain PreStartupMessage.ssl_request = Unit
  IsPlain PreStartupMessage.gss_enc_request = Unit
  IsPlain (PreStartupMessage.cancel_request process_id secret_key) = IsU32 process_id
  IsPlain (PreStartupMessage.startup m) =
      VersionIsTyped m × IsOrdinary m × IsSorted m.parameters × IsNamed m.parameters

  cancel-IsRound :
      (process_id : ℕ) (secret_key : Bytes) {packet : Bytes}
      → IsU32 process_id
      → cancel_packet process_id secret_key ≡ ok packet
      → IsRound (PreStartupMessage.cancel_request process_id secret_key) packet
  cancel-IsRound process_id secret_key t h =
      let (long, short, e) = cancel_packet-eq-ok process_id secret_key t h in
      (
        rw e (omega arith),
        (λ rest. rw e (
            leading_word-u32 (12 + length secret_key)
              (drop 4 (cancel_bytes process_id secret_key) ++ rest) (omega arith)
            ∙ omega arith)),
        rw e (decode_packet-cancel process_id secret_key t long short),
      )

  startup-IsRound :
      (m : StartupMessage) {packet : Bytes}
      → IsPlain (PreStartupMessage.startup m)
      → encode m ≡ ok packet
      → IsRound (PreStartupMessage.startup m) packet
  startup-IsRound m {packet} (typed, ordinary, sorted, named) h =
      let (all, small, e) = encode-eq-ok_startup m h in
      let enough = four_bytes m typed in
      let read = decode-encode m typed sorted named h in
      (
        rw e (omega arith),
        (λ rest. rw e (
            leading_word-u32 (length (payload m) + 4) (payload m ++ rest) (omega arith)
            ∙ omega arith)),
        rw e (decode_packet-startup m (length (payload m) + 4) typed ordinary)
            ∙ ap (map_ok PreStartupMessage.startup) (ap decode (sym e) ∙ read),
      )

  to_packet-IsRound :
      (message : PreStartupMessage) {packet : Bytes}
      → IsPlain message
      → to_packet message ≡ ok packet
      → IsRound message packet
  unfolding to_packet request_packet decode_packet
  to_packet-IsRound PreStartupMessage.ssl_request {packet} plain h =
      let e : request_packet ssl_request_code ≡ packet = cc in
      let long : 8 ≤ length (request_packet ssl_request_code) = omega arith in
      subst (IsRound PreStartupMessage.ssl_request) e (long, (λ rest. refl), refl)
  to_packet-IsRound PreStartupMessage.gss_enc_request {packet} plain h =
      let e : request_packet gssenc_request_code ≡ packet = cc in
      let long : 8 ≤ length (request_packet gssenc_request_code) = omega arith in
      subst (IsRound PreStartupMessage.gss_enc_request) e (long, (λ rest. refl), refl)
  to_packet-IsRound (PreStartupMessage.cancel_request process_id secret_key) plain h =
      cancel-IsRound process_id secret_key plain h
  to_packet-IsRound (PreStartupMessage.startup m) plain h = startup-IsRound m plain h

  -- The packet of a message, followed by anything, is read back as the message, with what follows
  -- left in the input, under a limit between 8 and 2^31 - 1 that the packet does not exceed. The
  -- fields of the message are within their types; a startup message has its parameters in the order
  -- of their names, none of them twice or empty, and another version than 1234.5678.
  pub decode_pre_startup-to_packet :
      (message : PreStartupMessage) (packet rest : Bytes) (limit : ℕ)
      → IsPlain message
      → to_packet message ≡ ok packet
      → length packet ≤ limit
      → limit < 2 ^ 31
      → decode_pre_startup_with_limit (packet ++ rest) limit ≡ (ok (some message), rest)
  decode_pre_startup-to_packet message packet rest limit plain h fits legal =
      let (long, declared, read) = to_packet-IsRound message plain h in
      taken_whole packet rest limit long fits legal (declared rest)
      ∙ ap (λ r. (map_ok some r, rest)) read
