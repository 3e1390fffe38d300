-- ===== src/Replication/RoundTrip.antt =====
-- src/replication.rs: decoding an encoded payload gives it back, in both directions.
use pg_proto.Base.{
  ℕ, ◌≡◌, ◌≢◌, refl, Bool, true, false, [], ◌∷◌, ◌++◌, length, arith, Bytes, ℤ, IsU32, ok,
  length-append, ltb, ◌==◌,
}
use pg_proto.Wire.{Wire}
use pg_proto.Codec.Primitives.Inverse.{get_u32-u32_to_be_bytes, length-put_u32}
use pg_proto.Replication.{
  BackendReplication, FrontendReplication, take_tag, take_bool, require_at_least, require_exact,
  bool_byte, take_flag, read_xlog_data, read_keepalive, decode_backend_tagged, decode_backend,
  encode_backend, read_standby_status, read_feedback, decode_frontend_tagged, decode_frontend,
  encode_frontend,
}
use pg_proto.Replication.Accessors.{
  IsU64, IsI64, WideWire, get_u64-put_u64, get_i64-put_i64, length-put_u64, length-put_i64,
}

-- The fields are within their types, and an unknown payload has another tag than the known ones.
abbrev pub IsBackendPayload : BackendReplication → Type 0
IsBackendPayload (BackendReplication.xlog_data wal_start wal_end server_time contents) =
    IsU64 wal_start × IsU64 wal_end × IsI64 server_time
IsBackendPayload (BackendReplication.primary_keepalive wal_end server_time reply) =
    IsU64 wal_end × IsI64 server_time
IsBackendPayload (BackendReplication.unknown tag body) = (tag ≢ b'w') × (tag ≢ b'k')

abbrev pub IsFrontendPayload : FrontendReplication → Type 0
IsFrontendPayload (FrontendReplication.standby_status written flushed applied time reply) =
    IsU64 written × IsU64 flushed × IsU64 applied × IsI64 time
IsFrontendPayload (FrontendReplication.hot_standby_feedback time xmin epoch catalog catalog_epoch) =
    IsI64 time × IsU32 xmin × IsU32 epoch × IsU32 catalog × IsU32 catalog_epoch
IsFrontendPayload (FrontendReplication.unknown tag body) = (tag ≢ b'r') × (tag ≢ b'h')

take_flag-bool_byte : (b : Bool) → take_flag (bool_byte b ∷ []) ≡ ok b
unfolding take_flag take_bool
take_flag-bool_byte true = refl
take_flag-bool_byte false = refl

module _ ⦃w : Wire⦄ ⦃x : WideWire⦄ where
  xlog_data_round :
      (a b : ℕ) (t : ℤ) (contents : Bytes)
      → IsBackendPayload (BackendReplication.xlog_data a b t contents)
      → decode_backend (encode_backend (BackendReplication.xlog_data a b t contents))
        ≡ ok (BackendReplication.xlog_data a b t contents)
  unfolding decode_backend encode_backend take_tag decode_backend_tagged require_at_least
      read_xlog_data
  xlog_data_round a b t contents (ha, hb, ht) =
      let payload = x.put_u64 a ++ (x.put_u64 b ++ (x.put_i64 t ++ contents)) in
      let long : ltb (length payload) 24 ≡ false = ground (
        arith,
        length-put_u64 a ha,
        length-put_u64 b hb,
        length-put_i64 t ht,
        length-append (x.put_u64 a) (x.put_u64 b ++ (x.put_i64 t ++ contents)),
        length-append (x.put_u64 b) (x.put_i64 t ++ contents),
        length-append (x.put_i64 t) contents,
      ) in
      rw long (
        rw (get_u64-put_u64 a (x.put_u64 b ++ (x.put_i64 t ++ contents)) ha) (
          rw (get_u64-put_u64 b (x.put_i64 t ++ contents) hb)
            (rw (get_i64-put_i64 t contents ht) refl)))

  keepalive_round :
      (e : ℕ) (t : ℤ) (reply : Bool)
      → IsBackendPayload (BackendReplication.primary_keepalive e t reply)
      → decode_backend (encode_backend (BackendReplication.primary_keepalive e t reply))
        ≡ ok (BackendReplication.primary_keepalive e t reply)
  unfolding decode_backend encode_backend take_tag decode_backend_tagged require_exact
      read_keepalive
  keepalive_round e t reply (he, ht) =
      let payload = x.put_u64 e ++ (x.put_i64 t ++ (bool_byte reply ∷ [])) in
      let long : (length payload == 17) ≡ true = ground (
        arith,
        length-put_u64 e he,
        length-put_i64 t ht,
        length-append (x.put_u64 e) (x.put_i64 t ++ (bool_byte reply ∷ [])),
        length-append (x.put_i64 t) (bool_byte reply ∷ []),
      ) in
      rw long (
        rw (get_u64-put_u64 e (x.put_i64 t ++ (bool_byte reply ∷ [])) he)
          (rw (get_i64-put_i64 t (bool_byte reply ∷ []) ht) (rw (take_flag-bool_byte reply) refl)))

  decode_backend-encode_backend :
      (m : BackendReplication) → IsBackendPayload m → decode_backend (encode_backend m) ≡ ok m
  unfolding decode_backend encode_backend take_tag decode_backend_tagged
  decode_backend-encode_backend (BackendReplication.xlog_data a b t contents) h =
      xlog_data_round a b t contents h
  decode_backend-encode_backend (BackendReplication.primary_keepalive e t reply) h =
      keepalive_round e t reply h
  decode_backend-encode_backend (BackendReplication.unknown tag body) (not_w, not_k) = ground arith

  get_u32-put_u32 : (n : ℕ) (rest : Bytes) → IsU32 n → w.get_u32 (w.put_u32 n ++ rest) ≡ (n, rest)
  get_u32-put_u32 n rest h = rw (w.put_u32_be n h) (get_u32-u32_to_be_bytes n rest h)

  get_u32-put_u32_last : (n : ℕ) → IsU32 n → w.get_u32 (w.put_u32 n) ≡ (n, [])
  get_u32-put_u32_last n h = rw (w.put_u32_be n h) (get_u32-u32_to_be_bytes n [] h)

  standby_status_round :
      (a b c : ℕ) (t : ℤ) (reply : Bool)
      → IsFrontendPayload (FrontendReplication.standby_status a b c t reply)
      → decode_frontend (encode_frontend (FrontendReplication.standby_status a b c t reply))
        ≡ ok (FrontendReplication.standby_status a b c t reply)
  unfolding decode_frontend encode_frontend take_tag decode_frontend_tagged require_exact
      read_standby_status
  standby_status_round a b c t reply (ha, hb, hc, ht) =
      let p3 = x.put_i64 t ++ (bool_byte reply ∷ []) in
      let p2 = x.put_u64 c ++ p3 in
      let p1 = x.put_u64 b ++ p2 in
      let payload = x.put_u64 a ++ p1 in
      let long : (length payload == 33) ≡ true = ground (
        arith,
        length-put_u64 a ha,
        length-put_u64 b hb,
        length-put_u64 c hc,
        length-put_i64 t ht,
        length-append (x.put_u64 a) p1,
        length-append (x.put_u64 b) p2,
        length-append (x.put_u64 c) p3,
        length-append (x.put_i64 t) (bool_byte reply ∷ []),
      ) in
      rw long (
        rw (get_u64-put_u64 a p1 ha) (
          rw (get_u64-put_u64 b p2 hb) (
            rw (get_u64-put_u64 c p3 hc) (
              rw (get_i64-put_i64 t (bool_byte reply ∷ []) ht)
                (rw (take_flag-bool_byte reply) refl)))))

  feedback_round :
      (t : ℤ) (a b c d : ℕ)
      → IsFrontendPayload (FrontendReplication.hot_standby_feedback t a b c d)
      → decode_frontend (encode_frontend (FrontendReplication.hot_standby_feedback t a b c d))
        ≡ ok (FrontendReplication.hot_standby_feedback t a b c d)
  unfolding decode_frontend encode_frontend take_tag decode_frontend_tagged require_exact
      read_feedback
  feedback_round t a b c d (ht, ha, hb, hc, hd) =
      let p3 = w.put_u32 c ++ w.put_u32 d in
      let p2 = w.put_u32 b ++ p3 in
      let p1 = w.put_u32 a ++ p2 in
      let payload = x.put_i64 t ++ p1 in
      let long : (length payload == 24) ≡ true = ground (
        arith,
        length-put_i64 t ht,
        length-put_u32 a ha,
        length-put_u32 b hb,
        length-put_u32 c hc,
        length-put_u32 d hd,
        length-append (x.put_i64 t) p1,
        length-append (w.put_u32 a) p2,
        length-append (w.put_u32 b) p3,
        length-append (w.put_u32 c) (w.put_u32 d),
      ) in
      rw long (
        rw (get_i64-put_i64 t p1 ht) (
          rw (get_u32-put_u32 a p2 ha) (
            rw (get_u32-put_u32 b p3 hb)
              (rw (get_u32-put_u32 c (w.put_u32 d) hc) (rw (get_u32-put_u32_last d hd) refl)))))

  decode_frontend-encode_frontend :
      (m : FrontendReplication) → IsFrontendPayload m → decode_frontend (encode_frontend m) ≡ ok m
  unfolding decode_frontend encode_frontend take_tag decode_frontend_tagged
  decode_frontend-encode_frontend (FrontendReplication.standby_status a b c t reply) h =
      standby_status_round a b c t reply h
  decode_frontend-encode_frontend (FrontendReplication.hot_standby_feedback t a b c d) h =
      feedback_round t a b c d h
  decode_frontend-encode_frontend (FrontendReplication.unknown tag body) (not_r, not_h) =
      ground arith

  -- A payload of the server and one of the standby, each with its fields within their types and,
  -- where its tag is unknown, another tag than the known ones, are decoded from their encoding.
  pub replication_round :
      (m : BackendReplication) (n : FrontendReplication)
      → IsBackendPayload m
      → IsFrontendPayload n
      → (decode_backend (encode_backend m) ≡ ok m) × (decode_frontend (encode_frontend n) ≡ ok n)
  replication_round m n hm hn =
      (decode_backend-encode_backend m hm, decode_frontend-encode_frontend n hn)
