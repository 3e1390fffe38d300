-- ===== src/Tests/Replication.antt =====
-- Accessors of 64 bits, and concrete payloads of replication.
use pg_proto.Base.{
  ℕ, ◌+◌, ◌*◌, ◌^◌, [], ◌∷◌, ◌≡◌, refl, true, Bytes, ok, pos, negsuc, arith, u32_from_be_bytes,
}
use pg_proto.Tests.{big_endian}
use pg_proto.Replication.{
  BackendReplication, FrontendReplication, encode_backend, decode_backend, encode_frontend,
  decode_frontend,
}
use pg_proto.Replication.Accessors.{WideWire, u64_to_be_bytes, i64_bits, i64_of_bits}
use pg_proto.Replication.RoundTrip.{replication_round}

abbrev get_64 : {A : Type 0} → (ℕ → A) → Bytes → A × Bytes
get_64 f (a ∷ b ∷ c ∷ d ∷ e ∷ g ∷ h ∷ i ∷ rest) =
    (f (u32_from_be_bytes a b c d * 2 ^ 32 + u32_from_be_bytes e g h i), rest)
get_64 f rest = (f 0, rest)

instance abbrev wide_big_endian : WideWire
wide_big_endian = record {
  put_u64 = u64_to_be_bytes;
  put_i64 = λ z. u64_to_be_bytes (i64_bits z);
  get_u64 = get_64 (λ n. n);
  get_i64 = get_64 i64_of_bits;
  put_u64_be = λ n h. refl;
  put_i64_be = λ z h. refl;
  get_u64_be = λ a b c d e f g h rest. refl;
  get_i64_be = λ a b c d e f g h rest. refl;
}

abbrev wal : BackendReplication
wal = BackendReplication.xlog_data 1 2 (negsuc 0) (7 ∷ 8 ∷ [])

abbrev applied : FrontendReplication
applied = FrontendReplication.standby_status 1 2 3 (pos 4) true

replication_round_example :
    (decode_backend (encode_backend wal) ≡ ok wal)
    × (decode_frontend (encode_frontend applied) ≡ ok applied)
replication_round_example =
    replication_round wal applied (omega arith, omega arith, omega arith)
      (omega arith, omega arith, omega arith, omega arith)
