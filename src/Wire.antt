-- ===== src/Wire.antt =====
-- The integer accessors of the `bytes` crate, which the repository only calls. `Buf` and `BufMut`
-- document them as big-endian; a getter panics on a short buffer, of which nothing is assumed.
use pg_proto.Base.{
  ℕ, ◌≡◌, ◌∷◌, Bytes, ℤ, IsU16, IsU32, IsI16, IsI32, i16_bits, i32_bits, i16_of_bits, i32_of_bits,
  u16_to_be_bytes, u32_to_be_bytes, u16_from_be_bytes, u32_from_be_bytes,
}

pub record Wire : Type 0 where
  pub put_u16 : ℕ → Bytes
  pub put_u32 : ℕ → Bytes
  pub put_i16 : ℤ → Bytes
  pub put_i32 : ℤ → Bytes
  pub get_u16 : Bytes → ℕ × Bytes
  pub get_u32 : Bytes → ℕ × Bytes
  pub get_i16 : Bytes → ℤ × Bytes
  pub get_i32 : Bytes → ℤ × Bytes
  pub put_u16_be : (n : ℕ) → IsU16 n → put_u16 n ≡ u16_to_be_bytes n
  pub put_u32_be : (n : ℕ) → IsU32 n → put_u32 n ≡ u32_to_be_bytes n
  pub put_i16_be : (z : ℤ) → IsI16 z → put_i16 z ≡ u16_to_be_bytes (i16_bits z)
  pub put_i32_be : (z : ℤ) → IsI32 z → put_i32 z ≡ u32_to_be_bytes (i32_bits z)
  pub get_u16_be : (a b : ℕ) (rest : Bytes) → get_u16 (a ∷ b ∷ rest) ≡ (u16_from_be_bytes a b, rest)
  pub get_u32_be :
      (a b c d : ℕ) (rest : Bytes)
      → get_u32 (a ∷ b ∷ c ∷ d ∷ rest) ≡ (u32_from_be_bytes a b c d, rest)
  pub get_i16_be :
      (a b : ℕ) (rest : Bytes)
      → get_i16 (a ∷ b ∷ rest) ≡ (i16_of_bits (u16_from_be_bytes a b), rest)
  pub get_i32_be :
      (a b c d : ℕ) (rest : Bytes)
      → get_i32 (a ∷ b ∷ c ∷ d ∷ rest) ≡ (i32_of_bits (u32_from_be_bytes a b c d), rest)
