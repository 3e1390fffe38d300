-- ===== src/Replication/Accessors.antt =====
-- The 64-bit accessors of the `bytes` crate, which src/replication.rs calls: big-endian as documented.
use pg_proto.Base.{
  ℕ, ◌+◌, ◌-◌, ◌*◌, ◌/◌, ◌%◌, ◌^◌, ◌<◌, ◌≡◌, ap, ◌∙◌, ◌∷◌, ◌++◌, Bytes, ℤ, pos, negsuc, ltb,
  if◌then◌else◌, length, arith, u32_to_be_bytes, u32_from_be_bytes, u32_be_bytes,
}

abbrev pub IsU64 : ℕ → Type 0
IsU64 n = n < 2 ^ 64

abbrev pub IsI64 : ℤ → Type 0
IsI64 (pos n) = n < 2 ^ 63
IsI64 (negsuc n) = n < 2 ^ 63

-- Two's complement in 64 bits.
abbrev pub i64_bits : ℤ → ℕ
i64_bits (pos n) = n
i64_bits (negsuc n) = 2 ^ 64 - 1 - n

abbrev pub i64_of_bits : ℕ → ℤ
i64_of_bits n = if ltb n (2 ^ 63) then pos n else negsuc (2 ^ 64 - 1 - n)

-- The two halves, each of four bytes.
abbrev pub u64_to_be_bytes : ℕ → Bytes
u64_to_be_bytes n = u32_to_be_bytes (n / 2 ^ 32) ++ u32_to_be_bytes (n % 2 ^ 32)

pub record WideWire : Type 0 where
  pub put_u64 : ℕ → Bytes
  pub put_i64 : ℤ → Bytes
  pub get_u64 : Bytes → ℕ × Bytes
  pub get_i64 : Bytes → ℤ × Bytes
  pub put_u64_be : (n : ℕ) → IsU64 n → put_u64 n ≡ u64_to_be_bytes n
  pub put_i64_be : (z : ℤ) → IsI64 z → put_i64 z ≡ u64_to_be_bytes (i64_bits z)
  pub get_u64_be :
      (a b c d e f g h : ℕ) (rest : Bytes)
      → get_u64 (a ∷ b ∷ c ∷ d ∷ e ∷ f ∷ g ∷ h ∷ rest)
        ≡ (u32_from_be_bytes a b c d * 2 ^ 32 + u32_from_be_bytes e f g h, rest)
  pub get_i64_be :
      (a b c d e f g h : ℕ) (rest : Bytes)
      → get_i64 (a ∷ b ∷ c ∷ d ∷ e ∷ f ∷ g ∷ h ∷ rest)
        ≡ (i64_of_bits (u32_from_be_bytes a b c d * 2 ^ 32 + u32_from_be_bytes e f g h), rest)

u64_be_bytes :
    (n : ℕ)
    → IsU64 n
    → u32_from_be_bytes
            (n / 2 ^ 32 / 2 ^ 24 % 2 ^ 8)
            (n / 2 ^ 32 / 2 ^ 16 % 2 ^ 8)
            (n / 2 ^ 32 / 2 ^ 8 % 2 ^ 8)
            (n / 2 ^ 32 % 2 ^ 8)
          * 2 ^ 32
        + u32_from_be_bytes
            (n % 2 ^ 32 / 2 ^ 24 % 2 ^ 8)
            (n % 2 ^ 32 / 2 ^ 16 % 2 ^ 8)
            (n % 2 ^ 32 / 2 ^ 8 % 2 ^ 8)
            (n % 2 ^ 32 % 2 ^ 8)
      ≡ n
u64_be_bytes n h =
    omega (arith, u32_be_bytes (n / 2 ^ 32) (omega arith), u32_be_bytes (n % 2 ^ 32) (omega arith))

i64_bits-IsU64 : (z : ℤ) → IsI64 z → IsU64 (i64_bits z)
i64_bits-IsU64 (pos n) h = omega arith
i64_bits-IsU64 (negsuc n) h = omega arith

i64_of_bits-i64_bits : (z : ℤ) → IsI64 z → i64_of_bits (i64_bits z) ≡ z
i64_of_bits-i64_bits (pos n) h = ground arith
i64_of_bits-i64_bits (negsuc n) h = ground arith

module _ ⦃x : WideWire⦄ where
  pub get_u64-put_u64 :
      (n : ℕ) (rest : Bytes) → IsU64 n → x.get_u64 (x.put_u64 n ++ rest) ≡ (n, rest)
  get_u64-put_u64 n rest h =
      rw (x.put_u64_be n h)
        (x.get_u64_be _ _ _ _ _ _ _ _ rest ∙ ap (λ v. (v, rest)) (u64_be_bytes n h))

  pub get_i64-put_i64 :
      (z : ℤ) (rest : Bytes) → IsI64 z → x.get_i64 (x.put_i64 z ++ rest) ≡ (z, rest)
  get_i64-put_i64 z rest h = rw (x.put_i64_be z h) (
      x.get_i64_be _ _ _ _ _ _ _ _ rest
      ∙ ap (λ v. (i64_of_bits v, rest)) (u64_be_bytes (i64_bits z) (i64_bits-IsU64 z h))
      ∙ ap (λ v. (v, rest)) (i64_of_bits-i64_bits z h))

  pub length-put_u64 : (n : ℕ) → IsU64 n → length (x.put_u64 n) ≡ 8
  length-put_u64 n h = rw (x.put_u64_be n h)

  pub length-put_i64 : (z : ℤ) → IsI64 z → length (x.put_i64 z) ≡ 8
  length-put_i64 z h = rw (x.put_i64_be z h)
