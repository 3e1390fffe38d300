-- ===== src/Codec/Frame.antt =====
-- src/codec.rs, framing: `Frame`, the limit of `PgCodec`, its encoder and its decoder. `usize` has
-- 64 bits.
pub mod Framing
use pg_proto.Base.{
  ℕ, ◌+◌, ◌*◌, ◌^◌, ◌&&◌, ◌++◌, ◌∷◌, [], Option, none, some, ltb, leb, if◌then◌else◌, length, take,
  drop, Bytes, Result, ok, err, invalid_input, text, in_message, IoError, io_error, String, not,
  ◌||◌, u32_from_be_bytes,
}
use pg_proto.Wire.{Wire}
use pg_proto.Codec.Primitives.{invalid, bad_input}

pub record Frame : Type 0 where
  pub tag : ℕ
  pub body : Bytes

-- `i32::MAX as usize + 1`.
abbrev pub max_protocol_frame_len : ℕ
max_protocol_frame_len = 2 ^ 31

abbrev pub default_max_frame_len : ℕ
default_max_frame_len = 16 * 1024 * 1024

-- A codec is its limit.
unfoldable pub with_max_frame_len : ℕ → Result ℕ
with_max_frame_len max_frame_len =
    if not (leb 5 max_frame_len && leb max_frame_len max_protocol_frame_len)
    then err (bad_input "frame limit is outside PostgreSQL's tagged-frame range")
    else ok max_frame_len

module _ ⦃w : Wire⦄ where
  unfoldable pub encode : ℕ → Frame → Bytes → Result Bytes
  encode max_frame_len item destination =
      if leb (2 ^ 64) (length item.body + 5)
      then err (bad_input "frame too large")
      else if ltb max_frame_len (length item.body + 5)
      then err (bad_input "frame exceeds configured limit")
      else if leb (2 ^ 32) (length item.body + 4)
      then err (bad_input "frame too large")
      else ok (destination ++ (item.tag ∷ (w.put_u32 (length item.body + 4) ++ item.body)))

-- The outcome and the bytes left in the source, which only a complete frame shortens.
unfoldable pub decode_frame : ℕ → Bytes → Result (Option Frame) × Bytes
decode_frame max_frame_len (tag ∷ a ∷ b ∷ c ∷ d ∷ rest) =
    let source = tag ∷ a ∷ b ∷ c ∷ d ∷ rest in
    let declared = u32_from_be_bytes a b c d in
    let frame_length = declared + 1 in
    if ltb declared 4
    then (err (invalid "message length is smaller than its length field"), source)
    else if ltb max_protocol_frame_len frame_length
    then (err (invalid "message length exceeds PostgreSQL's signed int32 range"), source)
    else if ltb max_frame_len frame_length
    then (err (invalid "message exceeds configured frame limit"), source)
    else if ltb (length source) frame_length
    then (ok none, source)
    else (
      ok (some (record { tag = tag; body = drop 5 (take frame_length source) })),
      drop frame_length source,
    )
decode_frame max_frame_len source = (ok none, source)

-- The error of a message names its tag.
abbrev pub tag_error : ℕ → IoError → IoError
tag_error tag (io_error kind message) = io_error kind (in_message tag message)

module _ {ℓ} {A : Type ℓ} where
  unfoldable pub lift_message : ℕ → Result A → Result (Option A)
  lift_message tag (ok m) = ok (some m)
  lift_message tag (err e) = err (tag_error tag e)

  unfoldable pub decode_with :
      (Frame → Result A) → Result (Option Frame) × Bytes → Result (Option A) × Bytes
  unfolding lift_message
  decode_with decode_message (ok (some f), rest) = (lift_message f.tag (decode_message f), rest)
  decode_with decode_message (ok none, rest) = (ok none, rest)
  decode_with decode_message (err e, rest) = (err e, rest)

  -- `Decoder::decode` of `PgCodec<D>`, for the direction's `D::decode`.
  unfoldable pub decode_item : (Frame → Result A) → ℕ → Bytes → Result (Option A) × Bytes
  unfolding decode_with
  decode_item decode_message max_frame_len source =
      decode_with decode_message (decode_frame max_frame_len source)
