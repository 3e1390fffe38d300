-- ===== src/Codec/Primitives/Sequences.antt =====
-- Counted sequences and nullable values: what the writers append, and that the readers undo it.
use pg_proto.Base.{
  ℕ, ◌*◌, ◌≤◌, ◌<◌, ◌^◌, ◌≡◌, String, List, ◌++◌, Option, none, some, arith, length, All,
  length-append, append_assoc, take-append_length, drop-append_length, Bytes, ℤ, pos, negsuc, IsI16,
  IsU32, Result, ok, ◌>>=◌, >>=-eq-ok,
}
use pg_proto.Wire.{Wire}
use pg_proto.Codec.Primitives.{
  require, require_collection_bytes, put_each, take_i16, take_i32, put_count, put_i16, put_u32,
  take_u32, take_counted, put_counted, take_i16_vec, put_i16_vec, take_value, put_value,
}
use pg_proto.Codec.Primitives.Inverse.{
  encode_all, length-encode_all, take_many-encode_all, put_each-eq-ok, take_u16-put_u16,
  take_i16-put_i16, take_i32-put_i32, length-put_i16, length-put_i32, take_u32-put_u32,
  length-put_u32,
}

-- A count that `u16::try_from` takes.
abbrev pub IsShort {ℓ} : {A : Type ℓ} → List A → Type 0
IsShort xs = length xs < 2 ^ 16

-- The range of a value that `i32::try_from(value.len())` takes.
abbrev pub FitsValue : Option Bytes → Type 0
FitsValue none = Unit {0}
FitsValue (some v) = length v < 2 ^ 31

product_bound : (count k : ℕ) → count < 2 ^ 16 → count * k ≤ 2 ^ 16 * k
product_bound count k h = grind arith

require_collection_bytes_lem :
    (count remaining k : ℕ) (d : String)
    → count < 2 ^ 16
    → k < 2 ^ 16
    → count * k ≤ remaining
    → require_collection_bytes count remaining k d ≡ ok tt
unfolding require_collection_bytes
require_collection_bytes_lem count remaining k d hc hk h = ground (arith, product_bound count k)

module _ ⦃w : Wire⦄ where
  abbrev pub counted {ℓ} : {A : Type ℓ} → (A → Bytes) → List A → Bytes
  counted enc xs = w.put_u16 (length xs) ++ encode_all enc xs

  pub put_counted-eq-ok {ℓ κ} :
      {A : Type ℓ} (put : A → Bytes → Result Bytes) (enc : A → Bytes) (P : A → Type κ)
      → ((a : A) (body b : Bytes) → put a body ≡ ok b → P a × (b ≡ body ++ enc a))
      → (xs : List A) (body : Bytes) {b : Bytes} → put_counted put xs body ≡ ok b
      → IsShort xs × All P xs × (b ≡ body ++ counted enc xs)
  unfolding put_counted put_count
  put_counted-eq-ok put enc P inv xs body h =
      let (b', first, rest) = >>=-eq-ok (put_count (length xs) body) (put_each put xs) h in
      let (all, e) = put_each-eq-ok put enc P inv xs b' rest in
      (
        ground arith,
        all,
        ground (arith, append_assoc body (w.put_u16 (length xs)) (encode_all enc xs)),
      )

  pub take_counted-counted {ℓ κ} :
      {A : Type ℓ} (d : String) (k : ℕ) (read : Bytes → Result (A × Bytes)) (enc : A → Bytes)
      (P : A → Type κ)
      → k < 2 ^ 16
      → ((a : A) (rest : Bytes) → P a → read (enc a ++ rest) ≡ ok (a, rest))
      → ((a : A) → P a → k ≤ length (enc a))
      → (xs : List A) (rest : Bytes) → IsShort xs
      → All P xs
      → take_counted d k read (counted enc xs ++ rest) ≡ ok (xs, rest)
  unfolding take_counted
  take_counted-counted d k read enc P hk inv long xs rest short all =
      rw (append_assoc (w.put_u16 (length xs)) (encode_all enc xs) rest) (
        rw (take_u16-put_u16 (length xs) (encode_all enc xs ++ rest) short) (
          rw
            (require_collection_bytes_lem (length xs) (length (encode_all enc xs ++ rest)) k d short
              hk
              (omega (
                arith,
                length-append (encode_all enc xs) rest,
                length-encode_all enc P k long xs all,
              )))
            (take_many-encode_all read enc P inv xs rest all)))

  abbrev pub i16_vec : List ℤ → Bytes
  i16_vec = counted w.put_i16

  pub put_i16_vec-eq-ok :
      (zs : List ℤ) (body : Bytes) {b : Bytes}
      → put_i16_vec zs body ≡ ok b
      → IsShort zs × (b ≡ body ++ i16_vec zs)
  unfolding put_i16_vec
  put_i16_vec-eq-ok zs body h =
      let (short, _, e) =
        put_counted-eq-ok put_i16 w.put_i16 (λ _. Unit {0}) (λ a body b e. (tt, ground arith)) zs
          body h in
      (short, e)

  pub take_i16_vec-i16_vec :
      (zs : List ℤ) (rest : Bytes)
      → IsShort zs
      → All IsI16 zs
      → take_i16_vec (i16_vec zs ++ rest) ≡ ok (zs, rest)
  unfolding take_i16_vec
  take_i16_vec-i16_vec =
      take_counted-counted "format count" 2 take_i16 w.put_i16 IsI16 (omega arith) take_i16-put_i16
        (λ z h. omega (arith, length-put_i16 z h))

  abbrev pub nullable : Option Bytes → Bytes
  nullable none = w.put_i32 (negsuc 0)
  nullable (some v) = w.put_i32 (pos (length v)) ++ v

  pub put_value-eq-ok :
      (what : String) (v : Option Bytes) (body b : Bytes)
      → put_value what v body ≡ ok b
      → FitsValue v × (b ≡ body ++ nullable v)
  unfolding put_value
  put_value-eq-ok what none body b h = (tt, ground arith)
  put_value-eq-ok what (some v) body b h =
      ground (arith, append_assoc body (w.put_i32 (pos (length v))) v)

  -- The reader of `decode_bind` and of `take_nullable` on what the writers append.
  pub take_value-nullable :
      (what : String) (v : Option Bytes) (rest : Bytes)
      → FitsValue v
      → (take_i32 (nullable v ++ rest) >>= λ p. take_value what p.0 p.1) ≡ ok (v, rest)
  unfolding take_value require
  take_value-nullable what none rest h = rw (take_i32-put_i32 (negsuc 0) rest (omega arith))
  take_value-nullable what (some v) rest h = rw (append_assoc (w.put_i32 (pos (length v))) v rest) (
      rw (take_i32-put_i32 (pos (length v)) (v ++ rest) h) (
        ground (arith, take-append_length v rest, drop-append_length v rest, length-append v rest)))

  pub length-nullable : (v : Option Bytes) → FitsValue v → 4 ≤ length (nullable v)
  length-nullable none h = omega (arith, length-put_i32 (negsuc 0) (omega arith))
  length-nullable (some v) h =
      omega (arith, length-append (w.put_i32 (pos (length v))) v, length-put_i32 (pos (length v)) h)

  pub put_u32s-eq-ok :
      (ns : List ℕ) (body : Bytes) {b : Bytes}
      → put_counted put_u32 ns body ≡ ok b
      → IsShort ns × (b ≡ body ++ counted w.put_u32 ns)
  put_u32s-eq-ok ns body h =
      let (short, _, e) =
        put_counted-eq-ok put_u32 w.put_u32 (λ _. Unit {0}) (λ a body b e. (tt, ground arith)) ns
          body h in
      (short, e)

  pub take_u32s-u32s :
      (d : String) (ns : List ℕ) (rest : Bytes)
      → IsShort ns
      → All IsU32 ns
      → take_counted d 4 take_u32 (counted w.put_u32 ns ++ rest) ≡ ok (ns, rest)
  take_u32s-u32s d =
      take_counted-counted d 4 take_u32 w.put_u32 IsU32 (omega arith) take_u32-put_u32
        (λ n h. omega (arith, length-put_u32 n h))

  pub put_values-eq-ok :
      (what : String) (vs : List (Option Bytes)) (body : Bytes) {b : Bytes}
      → put_counted (put_value what) vs body ≡ ok b
      → IsShort vs × All FitsValue vs × (b ≡ body ++ counted nullable vs)
  put_values-eq-ok what =
      put_counted-eq-ok (put_value what) nullable FitsValue (put_value-eq-ok what)

  pub take_values-values :
      (d : String) (read : Bytes → Result (Option Bytes × Bytes))
      → ((v : Option Bytes) (rest : Bytes) → FitsValue v → read (nullable v ++ rest) ≡ ok (v, rest))
      → (vs : List (Option Bytes)) (rest : Bytes) → IsShort vs
      → All FitsValue vs
      → take_counted d 4 read (counted nullable vs ++ rest) ≡ ok (vs, rest)
  take_values-values d read inv =
      take_counted-counted d 4 read nullable FitsValue (omega arith) inv length-nullable
