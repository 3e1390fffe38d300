-- ===== src/Codec/Simple.antt =====
-- src/codec.rs, the bodies that are empty or one string.
use pg_proto.Base.{ℕ, [], Bytes, Result, ok, ◌>>=◌, ◌>>◌}
use pg_proto.Codec.Primitives.{require_empty, take_cstr, put_cstr}
use pg_proto.Codec.Frame.{Frame}

abbrev pub frame : ℕ → Bytes → Frame
frame tag body = record { tag = tag; body = body }

abbrev pub empty_message : ℕ → Frame
empty_message tag = frame tag []

unfoldable pub cstr_message : ℕ → Bytes → Result Frame
cstr_message tag value = do body ← put_cstr value []; ok (frame tag body)

unfoldable pub decode_cstr_body : Bytes → Result Bytes
decode_cstr_body body = do (value, body) ← take_cstr body; require_empty body; ok value

-- `decode_empty(&body).map(|()| message)`.
unfoldable pub decode_empty {ℓ} : {A : Type ℓ} → A → Bytes → Result A
decode_empty message body = do require_empty body; ok message
