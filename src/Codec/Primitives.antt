-- ===== src/Codec/Primitives.antt =====
-- src/codec.rs, the readers and writers of message bodies. `Bytes` and `BytesMut` are byte
-- sequences: a reader returns its value with the bytes left, a writer the extended buffer.
pub mod Inverse
pub mod Sequences
use pg_proto.Base.{
  ℕ, zero, suc, ◌+◌, ◌*◌, ◌≤◌, ◌<◌, ◌^◌, ◌≡◌, String, Bool, true, false, ◌&&◌, not, List, [], ◌∷◌,
  ◌++◌, Option, none, some, ltb, leb, ◌==◌, if◌then◌else◌, length, take, drop, is_empty, Bytes, ℤ,
  pos, negsuc, ErrorKind, invalid_input, invalid_data, Message, text, about, IoError, io_error,
  Result, ok, err, ◌>>=◌, ◌>>◌,
}
use pg_proto.Wire.{Wire}

abbrev pub invalid : String → IoError
invalid m = io_error invalid_data (text m)

abbrev pub bad_input : String → IoError
bad_input m = io_error invalid_input (text m)

unfoldable pub require : Bytes → ℕ → Result (Unit {0})
require body n = if ltb (length body) n then err (invalid "truncated message body") else ok tt

unfoldable pub require_empty : Bytes → Result (Unit {0})
require_empty body = if is_empty body then ok tt else err (invalid "trailing message bytes")

-- `iter().position(|byte| *byte == 0)`.
unfoldable pub position_nul : Bytes → Option ℕ
position_nul [] = none
position_nul (b ∷ bs) =
    if b == 0 then some 0 else elim (position_nul bs) [ none ↦ none | some n ↦ some (suc n) ]

unfoldable pub take_cstr : Bytes → Result (Bytes × Bytes)
take_cstr body = elim (position_nul body) [
  | none ↦ err (invalid "unterminated string")
  | some end ↦ ok (take end body, drop 1 (drop end body))
]

-- `value.contains(&0)`.
unfoldable pub contains_nul : Bytes → Bool
contains_nul [] = false
contains_nul (b ∷ bs) = if b == 0 then true else contains_nul bs

unfoldable pub put_cstr : Bytes → Bytes → Result Bytes
put_cstr value body =
    if contains_nul value
    then err (bad_input "message string contains a NUL byte")
    else ok ((body ++ value) ++ 0 ∷ [])

unfoldable pub take_u8 : Bytes → Result (ℕ × Bytes)
take_u8 [] = err (invalid "truncated message body")
take_u8 (b ∷ rest) = ok (b, rest)

-- `checked_mul` cannot fail below 2 ^ 64, so a product at or above it is the overflow.
unfoldable pub require_collection_bytes : ℕ → ℕ → ℕ → String → Result (Unit {0})
require_collection_bytes count remaining minimum_item_len description =
    if leb (2 ^ 64) (count * minimum_item_len)
    then err (io_error invalid_data (about description "overflows message size"))
    else if ltb remaining (count * minimum_item_len)
    then err (io_error invalid_data (about description "exceeds remaining message body"))
    else ok tt

-- A loop `for _ in 0..count` that pushes what `read` takes.
unfoldable pub take_many {ℓ} :
    {A : Type ℓ} → (Bytes → Result (A × Bytes)) → ℕ → Bytes → Result (List A × Bytes)
take_many read zero body = ok ([], body)
take_many read (suc n) body = do
  (a, body) ← read body
  (as', body) ← take_many read n body
  ok (a ∷ as', body)

-- A loop over `values` that calls the writer on each.
unfoldable pub put_each {ℓ} :
    {A : Type ℓ} → (A → Bytes → Result Bytes) → List A → Bytes → Result Bytes
put_each put [] body = ok body
put_each put (a ∷ as') body = do body ← put a body; put_each put as' body

module _ ⦃w : Wire⦄ where
  unfoldable pub take_u16 : Bytes → Result (ℕ × Bytes)
  take_u16 body = do require body 2; ok (w.get_u16 body)

  unfoldable pub take_i16 : Bytes → Result (ℤ × Bytes)
  take_i16 body = do require body 2; ok (w.get_i16 body)

  unfoldable pub take_u32 : Bytes → Result (ℕ × Bytes)
  take_u32 body = do require body 4; ok (w.get_u32 body)

  unfoldable pub take_i32 : Bytes → Result (ℤ × Bytes)
  take_i32 body = do require body 4; ok (w.get_i32 body)

  unfoldable pub put_count : ℕ → Bytes → Result Bytes
  put_count count body =
      if ltb count (2 ^ 16)
      then ok (body ++ w.put_u16 count)
      else err (bad_input "message item count exceeds u16")

  abbrev pub put_u32 : ℕ → Bytes → Result Bytes
  put_u32 n body = ok (body ++ w.put_u32 n)

  abbrev pub put_i16 : ℤ → Bytes → Result Bytes
  put_i16 z body = ok (body ++ w.put_i16 z)

  -- The shape that every counted sequence has: the count, the check of the bytes left, the items.
  unfoldable pub take_counted {ℓ} :
      {A : Type ℓ} → String → ℕ → (Bytes → Result (A × Bytes)) → Bytes → Result (List A × Bytes)
  take_counted description minimum_item_len read body = do
    (count, body) ← take_u16 body
    require_collection_bytes count (length body) minimum_item_len description
    take_many read count body

  unfoldable pub put_counted {ℓ} :
      {A : Type ℓ} → (A → Bytes → Result Bytes) → List A → Bytes → Result Bytes
  put_counted put items body = do body ← put_count (length items) body; put_each put items body

  unfoldable pub take_i16_vec : Bytes → Result (List ℤ × Bytes)
  unfolding take_counted
  take_i16_vec = take_counted "format count" 2 take_i16

  unfoldable pub put_i16_vec : List ℤ → Bytes → Result Bytes
  unfolding put_counted
  put_i16_vec = put_counted put_i16

  -- A length field of -1 is SQL NULL; any other negative length is refused with `what`.
  unfoldable pub take_value : String → ℤ → Bytes → Result (Option Bytes × Bytes)
  take_value what (negsuc zero) body = ok (none, body)
  take_value what (negsuc (suc n)) body = err (invalid what)
  take_value what (pos n) body = do require body n; ok (some (take n body), drop n body)

  unfoldable pub take_nullable : Bytes → Result (Option Bytes × Bytes)
  unfolding take_value
  take_nullable body = do (n, body) ← take_i32 body; take_value "negative value length" n body

  -- `i32::try_from(value.len())`, with the error of the caller.
  unfoldable pub put_value : String → Option Bytes → Bytes → Result Bytes
  put_value what none body = ok (body ++ w.put_i32 (negsuc 0))
  put_value what (some value) body =
      if ltb (length value) (2 ^ 31)
      then ok ((body ++ w.put_i32 (pos (length value))) ++ value)
      else err (bad_input what)

  unfoldable pub put_nullable : Option Bytes → Bytes → Result Bytes
  unfolding put_value
  put_nullable = put_value "value is too large"
