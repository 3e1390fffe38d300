-- ===== src/Codec/Frontend/Encode.antt =====
-- src/codec.rs, `to_frame` of the frontend messages.
use pg_proto.Base.{ℕ, ◌++◌, ◌∷◌, [], Bytes, Result, ok, ◌>>=◌}
use pg_proto.Wire.{Wire}
use pg_proto.Codec.Primitives.{put_cstr, put_u32, put_counted, put_i16_vec, put_value, put_nullable}
use pg_proto.Codec.Frame.{Frame}
use pg_proto.Codec.Simple.{frame, empty_message, cstr_message}
use pg_proto.Codec.Frontend.Messages.{
  Parse, Bind, DescribeTarget, Describe, Close, Execute, FunctionCall, FrontendMessage,
}

abbrev pub target_byte : DescribeTarget → ℕ
target_byte DescribeTarget.statement = b'S'
target_byte DescribeTarget.portal = b'P'

unfoldable pub named_target_frame : ℕ → DescribeTarget → Bytes → Result Frame
named_target_frame tag target name = do
  body ← put_cstr name (target_byte target ∷ [])
  ok (frame tag body)

module _ ⦃w : Wire⦄ where
  unfoldable pub parse_to_frame : Parse → Result Frame
  parse_to_frame m = do
    body ← put_cstr m.statement []
    body ← put_cstr m.query body
    body ← put_counted put_u32 m.parameter_types body
    ok (frame b'P' body)

  unfoldable pub bind_to_frame : Bind → Result Frame
  bind_to_frame m = do
    body ← put_cstr m.portal []
    body ← put_cstr m.statement body
    body ← put_i16_vec m.parameter_formats body
    body ← put_counted (put_value "Bind parameter is too large") m.parameters body
    body ← put_i16_vec m.result_formats body
    ok (frame b'B' body)

  unfoldable pub describe_to_frame : Describe → Result Frame
  describe_to_frame m = do body ← put_cstr m.name (target_byte m.target ∷ []); ok (frame b'D' body)

  unfoldable pub close_to_frame : Close → Result Frame
  close_to_frame m = named_target_frame b'C' m.target m.name

  unfoldable pub execute_to_frame : Execute → Result Frame
  execute_to_frame m = do
    body ← put_cstr m.portal []
    ok (frame b'E' (body ++ w.put_i32 m.max_rows))

  unfoldable pub function_call_to_frame : FunctionCall → Result Frame
  function_call_to_frame m = do
    body ← put_i16_vec m.argument_formats (w.put_u32 m.function_oid)
    body ← put_counted put_nullable m.arguments body
    ok (frame b'F' (body ++ w.put_i16 m.result_format))

  unfoldable pub to_frame : FrontendMessage → Result Frame
  to_frame (FrontendMessage.parse m) = parse_to_frame m
  to_frame (FrontendMessage.bind m) = bind_to_frame m
  to_frame (FrontendMessage.describe m) = describe_to_frame m
  to_frame (FrontendMessage.close m) = close_to_frame m
  to_frame (FrontendMessage.execute m) = execute_to_frame m
  to_frame (FrontendMessage.function_call m) = function_call_to_frame m
  to_frame (FrontendMessage.query q) = cstr_message b'Q' q
  to_frame FrontendMessage.flush = ok (empty_message b'H')
  to_frame FrontendMessage.sync = ok (empty_message b'S')
  to_frame FrontendMessage.terminate = ok (empty_message b'X')
  to_frame (FrontendMessage.copy_data d) = ok (frame b'd' d)
  to_frame FrontendMessage.copy_done = ok (empty_message b'c')
  to_frame (FrontendMessage.copy_fail m) = cstr_message b'f' m
  to_frame (FrontendMessage.password_response d) = ok (frame b'p' d)
