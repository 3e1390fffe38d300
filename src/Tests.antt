-- ===== src/Tests.antt =====
-- Accessors of concrete integers, and concrete runs of the theorems.
mod Codec
mod Pipeline
mod Demux
mod Startup
mod Responses
mod Proxy
mod Replication
mod Intermediary
mod Resources
use pg_proto.Base.{
  ℕ, ◌+◌, ◌*◌, ◌^◌, ◌<◌, List, [], ◌∷◌, ◌++◌, ◌≡◌, ◌≢◌, refl, Option, none, some, Bytes, ok, IsU32,
  Bool, true, false, length, pos, negsuc, ℤ, u16_to_be_bytes, u32_to_be_bytes, u16_from_be_bytes,
  u32_from_be_bytes, i16_bits, i32_bits, i16_of_bits, i32_of_bits, inl, inr, ◌⊎◌, ◌≤◌, arith,
}
use pg_proto.Wire.{Wire}

abbrev get_16 : {A : Type 0} → (ℕ → A) → Bytes → A × Bytes
get_16 f (a ∷ b ∷ rest) = (f (u16_from_be_bytes a b), rest)
get_16 f rest = (f 0, rest)

abbrev get_32 : {A : Type 0} → (ℕ → A) → Bytes → A × Bytes
get_32 f (a ∷ b ∷ c ∷ d ∷ rest) = (f (u32_from_be_bytes a b c d), rest)
get_32 f rest = (f 0, rest)

-- Accessors that behave as documented.
instance abbrev pub big_endian : Wire
big_endian = record {
  put_u16 = u16_to_be_bytes;
  put_u32 = u32_to_be_bytes;
  put_i16 = λ z. u16_to_be_bytes (i16_bits z);
  put_i32 = λ z. u32_to_be_bytes (i32_bits z);
  get_u16 = get_16 (λ n. n);
  get_u32 = get_32 (λ n. n);
  get_i16 = get_16 i16_of_bits;
  get_i32 = get_32 i32_of_bits;
  put_u16_be = λ n h. refl;
  put_u32_be = λ n h. refl;
  put_i16_be = λ n h. refl;
  put_i32_be = λ n h. refl;
  get_u16_be = λ a b rest. refl;
  get_u32_be = λ a b c d rest. refl;
  get_i16_be = λ a b rest. refl;
  get_i32_be = λ a b c d rest. refl;
}
