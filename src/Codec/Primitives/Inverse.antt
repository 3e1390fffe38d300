-- ===== src/Codec/Primitives/Inverse.antt =====
-- Each reader gives back what its writer wrote, with any bytes behind it.
use pg_proto.Base.{
  ℕ, ◌*◌, ◌/◌, ◌%◌, ◌≤◌, ◌^◌, ◌≡◌, refl, ap, ◌∙◌, false, List, [], ◌∷◌, ◌++◌, some, arith, length,
  All, length-append, append_assoc, append-nil, take-append_length, drop-append_length, Bytes, ℤ,
  pos, negsuc, IsU16, IsU32, IsI16, IsI32, i16_bits, i32_bits, i16_of_bits-i16_bits,
  i32_of_bits-i32_bits, u16_to_be_bytes, u32_to_be_bytes, u32_be_bytes, i16_of_bits, i32_of_bits,
  Result, ok, >>=-eq-ok,
}
use pg_proto.Wire.{Wire}
use pg_proto.Codec.Primitives.{
  require, position_nul, take_cstr, contains_nul, put_cstr, take_many, put_each, take_u16, take_i16,
  take_u32, take_i32,
}

abbrev pub HasNoNul : Bytes → Type 0
HasNoNul v = contains_nul v ≡ false

abbrev pub cstr : Bytes → Bytes
cstr v = v ++ 0 ∷ []

pub position_nul-cstr :
    (v rest : Bytes) → HasNoNul v → position_nul (v ++ (0 ∷ rest)) ≡ some (length v)
unfolding position_nul contains_nul
position_nul-cstr [] rest h = refl
position_nul-cstr (b ∷ v) rest h = ground (arith, position_nul-cstr v rest)

pub take_cstr-cstr : (v rest : Bytes) → HasNoNul v → take_cstr (cstr v ++ rest) ≡ ok (v, rest)
unfolding take_cstr
take_cstr-cstr v rest h = rw (append_assoc v (0 ∷ []) rest) (
    rw (position_nul-cstr v rest h, take_cstr)
      (rw (take-append_length v (0 ∷ rest), drop-append_length v (0 ∷ rest))))

pub put_cstr-eq-ok :
    (v body : Bytes) {b : Bytes} → put_cstr v body ≡ ok b → HasNoNul v × (b ≡ body ++ cstr v)
unfolding put_cstr
put_cstr-eq-ok v body h = ground (arith, append_assoc body v (0 ∷ []))

pub require_lem : (body : Bytes) (n : ℕ) → n ≤ length body → require body n ≡ ok tt
unfolding require
require_lem body n h = ground arith

module _ {ℓ} {A : Type ℓ} where
  abbrev pub encode_all : (A → Bytes) → List A → Bytes
  encode_all enc [] = []
  encode_all enc (x ∷ xs) = enc x ++ encode_all enc xs

  pub length-encode_all {κ} :
      (enc : A → Bytes) (P : A → Type κ) (k : ℕ)
      → ((a : A) → P a → k ≤ length (enc a))
      → (xs : List A) → All P xs
      → length xs * k ≤ length (encode_all enc xs)
  length-encode_all enc P k h [] all = omega arith
  length-encode_all enc P k h (x ∷ xs) (hx, hxs) =
      omega (
        arith,
        length-encode_all enc P k h xs hxs,
        h x hx,
        length-append (enc x) (encode_all enc xs),
      )

  pub take_many-encode_all {κ} :
      (read : Bytes → Result (A × Bytes)) (enc : A → Bytes) (P : A → Type κ)
      → ((a : A) (rest : Bytes) → P a → read (enc a ++ rest) ≡ ok (a, rest))
      → (xs : List A) (rest : Bytes) → All P xs
      → take_many read (length xs) (encode_all enc xs ++ rest) ≡ ok (xs, rest)
  unfolding take_many
  take_many-encode_all read enc P inv [] rest h = refl
  take_many-encode_all read enc P inv (x ∷ xs) rest (hx, hxs) =
      rw (append_assoc (enc x) (encode_all enc xs) rest) (
        rw (inv x (encode_all enc xs ++ rest) hx)
          (rw (take_many-encode_all read enc P inv xs rest hxs)))

  pub put_each-eq-ok {κ} :
      (put : A → Bytes → Result Bytes) (enc : A → Bytes) (P : A → Type κ)
      → ((a : A) (body b : Bytes) → put a body ≡ ok b → P a × (b ≡ body ++ enc a))
      → (xs : List A) (body : Bytes) {b : Bytes} → put_each put xs body ≡ ok b
      → All P xs × (b ≡ body ++ encode_all enc xs)
  unfolding put_each
  put_each-eq-ok put enc P inv [] body h = (tt, ground (arith, append-nil body))
  put_each-eq-ok put enc P inv (x ∷ xs) body h =
      let (b', first, rest) = >>=-eq-ok (put x body) (put_each put xs) h in
      let (px, e) = inv x body b' first in
      let (pxs, e') = put_each-eq-ok put enc P inv xs b' rest in
      ((px, pxs), e' ∙ ap (λ t. t ++ encode_all enc xs) e ∙ append_assoc body (enc x) _)

-- The reader side of the four integer formats, over any four bytes.
module _ ⦃w : Wire⦄ where
  take_u16_be :
      (n : ℕ) (rest : Bytes) → IsU16 n → take_u16 (u16_to_be_bytes n ++ rest) ≡ ok (n, rest)
  unfolding take_u16 require
  take_u16_be n rest h = rw (w.get_u16_be (n / 2 ^ 8 % 2 ^ 8) (n % 2 ^ 8) rest) (ground arith)

  take_u32_be :
      (n : ℕ) (rest : Bytes) → IsU32 n → take_u32 (u32_to_be_bytes n ++ rest) ≡ ok (n, rest)
  unfolding take_u32 require
  take_u32_be n rest h =
      rw
        (w.get_u32_be (n / 2 ^ 24 % 2 ^ 8) (n / 2 ^ 16 % 2 ^ 8) (n / 2 ^ 8 % 2 ^ 8) (n % 2 ^ 8)
          rest)
        (ground (arith, u32_be_bytes n))

  take_i16_be :
      (n : ℕ) (rest : Bytes)
      → IsU16 n
      → take_i16 (u16_to_be_bytes n ++ rest) ≡ ok (i16_of_bits n, rest)
  unfolding take_i16 require
  take_i16_be n rest h = rw (w.get_i16_be (n / 2 ^ 8 % 2 ^ 8) (n % 2 ^ 8) rest) (ground arith)

  take_i32_be :
      (n : ℕ) (rest : Bytes)
      → IsU32 n
      → take_i32 (u32_to_be_bytes n ++ rest) ≡ ok (i32_of_bits n, rest)
  unfolding take_i32 require
  take_i32_be n rest h =
      rw
        (w.get_i32_be (n / 2 ^ 24 % 2 ^ 8) (n / 2 ^ 16 % 2 ^ 8) (n / 2 ^ 8 % 2 ^ 8) (n % 2 ^ 8)
          rest)
        (ground (arith, u32_be_bytes n))

i16_bits-IsU16 : (z : ℤ) → IsI16 z → IsU16 (i16_bits z)
i16_bits-IsU16 (pos n) h = omega arith
i16_bits-IsU16 (negsuc n) h = omega arith

i32_bits-IsU32 : (z : ℤ) → IsI32 z → IsU32 (i32_bits z)
i32_bits-IsU32 (pos n) h = omega arith
i32_bits-IsU32 (negsuc n) h = omega arith

module _ ⦃w : Wire⦄ where
  pub take_u16-put_u16 :
      (n : ℕ) (rest : Bytes) → IsU16 n → take_u16 (w.put_u16 n ++ rest) ≡ ok (n, rest)
  take_u16-put_u16 n rest h = rw (w.put_u16_be n h) (take_u16_be n rest h)

  pub take_u32-put_u32 :
      (n : ℕ) (rest : Bytes) → IsU32 n → take_u32 (w.put_u32 n ++ rest) ≡ ok (n, rest)
  take_u32-put_u32 n rest h = rw (w.put_u32_be n h) (take_u32_be n rest h)

  pub take_i16-put_i16 :
      (z : ℤ) (rest : Bytes) → IsI16 z → take_i16 (w.put_i16 z ++ rest) ≡ ok (z, rest)
  take_i16-put_i16 z rest h = rw (w.put_i16_be z h) (
      take_i16_be (i16_bits z) rest (i16_bits-IsU16 z h)
      ∙ ap (λ v. ok (v, rest)) (i16_of_bits-i16_bits z h))

  pub take_i32-put_i32 :
      (z : ℤ) (rest : Bytes) → IsI32 z → take_i32 (w.put_i32 z ++ rest) ≡ ok (z, rest)
  take_i32-put_i32 z rest h = rw (w.put_i32_be z h) (
      take_i32_be (i32_bits z) rest (i32_bits-IsU32 z h)
      ∙ ap (λ v. ok (v, rest)) (i32_of_bits-i32_bits z h))

  pub length-put_u16 : (n : ℕ) → IsU16 n → length (w.put_u16 n) ≡ 2
  length-put_u16 n h = rw (w.put_u16_be n h)

  pub length-put_u32 : (n : ℕ) → IsU32 n → length (w.put_u32 n) ≡ 4
  length-put_u32 n h = rw (w.put_u32_be n h)

  pub length-put_i16 : (z : ℤ) → IsI16 z → length (w.put_i16 z) ≡ 2
  length-put_i16 z h = rw (w.put_i16_be z h)

  pub length-put_i32 : (z : ℤ) → IsI32 z → length (w.put_i32 z) ≡ 4
  length-put_i32 z h = rw (w.put_i32_be z h)

-- The accessors themselves, where the source calls them with no check before.
module _ ⦃w : Wire⦄ where
  pub get_u16-put_u16 :
      (n : ℕ) (rest : Bytes) → IsU16 n → w.get_u16 (w.put_u16 n ++ rest) ≡ (n, rest)
  get_u16-put_u16 n rest h =
      rw (w.put_u16_be n h) (w.get_u16_be (n / 2 ^ 8 % 2 ^ 8) (n % 2 ^ 8) rest ∙ ground arith)

  pub get_u32-u32_to_be_bytes :
      (n : ℕ) (rest : Bytes) → IsU32 n → w.get_u32 (u32_to_be_bytes n ++ rest) ≡ (n, rest)
  get_u32-u32_to_be_bytes n rest h =
      w.get_u32_be (n / 2 ^ 24 % 2 ^ 8) (n / 2 ^ 16 % 2 ^ 8) (n / 2 ^ 8 % 2 ^ 8) (n % 2 ^ 8) rest
      ∙ ap (λ v. (v, rest)) (u32_be_bytes n h)
