-- ===== src/Codec/Frontend/Decode.antt =====
-- src/codec.rs, `Frontend::decode`.
use pg_proto.Base.{
  ℕ, Option, Bytes, ◌==◌, if◌then◌else◌, Result, ok, err, ◌>>=◌, ◌>>◌, map_ok, invalid_data,
  unknown, io_error,
}
use pg_proto.Wire.{Wire}
use pg_proto.Codec.Primitives.{
  invalid, require_empty, take_cstr, take_u8, take_u32, take_i16, take_i32, take_counted,
  take_i16_vec, take_value, take_nullable,
}
use pg_proto.Codec.Frame.{Frame}
use pg_proto.Codec.Simple.{decode_empty, decode_cstr_body}
use pg_proto.Codec.Frontend.Messages.{
  Parse, Bind, DescribeTarget, Describe, Close, Execute, FunctionCall, FrontendMessage,
}

unfoldable pub target_of_byte : ℕ → Result DescribeTarget
target_of_byte b =
    if b == b'S'
    then ok DescribeTarget.statement
    else if b == b'P'
    then ok DescribeTarget.portal
    else err (invalid "invalid statement or portal target")

unfoldable pub take_target : Bytes → Result (DescribeTarget × Bytes)
unfolding target_of_byte
take_target body = do (b, body) ← take_u8 body; target ← target_of_byte b; ok (target, body)

module _ ⦃w : Wire⦄ where
  unfoldable pub decode_parse : Bytes → Result Parse
  decode_parse body = do
    (statement, body) ← take_cstr body
    (query, body) ← take_cstr body
    (types, body) ← take_counted "parameter type count" 4 take_u32 body
    require_empty body
    ok (record { statement = statement; query = query; parameter_types = types })

  unfoldable pub take_parameter : Bytes → Result (Option Bytes × Bytes)
  take_parameter body = do
    (length, body) ← take_i32 body
    take_value "negative parameter length" length body

  unfoldable pub decode_bind : Bytes → Result Bind
  decode_bind body = do
    (portal, body) ← take_cstr body
    (statement, body) ← take_cstr body
    (parameter_formats, body) ← take_i16_vec body
    (parameters, body) ← take_counted "parameter count" 4 take_parameter body
    (result_formats, body) ← take_i16_vec body
    require_empty body
    ok (record {
      portal = portal;
      statement = statement;
      parameter_formats = parameter_formats;
      parameters = parameters;
      result_formats = result_formats;
    })

  unfoldable pub decode_describe : Bytes → Result Describe
  decode_describe body = do
    (target, body) ← take_target body
    (name, body) ← take_cstr body
    require_empty body
    ok (record { target = target; name = name })

  unfoldable pub decode_close : Bytes → Result Close
  decode_close body = do
    (target, body) ← take_target body
    (name, body) ← take_cstr body
    require_empty body
    ok (record { target = target; name = name })

  unfoldable pub decode_execute : Bytes → Result Execute
  decode_execute body = do
    (portal, body) ← take_cstr body
    (max_rows, body) ← take_i32 body
    require_empty body
    ok (record { portal = portal; max_rows = max_rows })

  unfoldable pub decode_function_call : Bytes → Result FunctionCall
  decode_function_call body = do
    (function_oid, body) ← take_u32 body
    (argument_formats, body) ← take_i16_vec body
    (arguments, body) ← take_counted "argument count" 4 take_nullable body
    (result_format, body) ← take_i16 body
    require_empty body
    ok (record {
      function_oid = function_oid;
      argument_formats = argument_formats;
      arguments = arguments;
      result_format = result_format;
    })

  -- `match frame.tag`.
  unfoldable pub decode_tagged : ℕ → Bytes → Result FrontendMessage
  decode_tagged tag body =
      if tag == b'P'
      then map_ok FrontendMessage.parse (decode_parse body)
      else if tag == b'B'
      then map_ok FrontendMessage.bind (decode_bind body)
      else if tag == b'D'
      then map_ok FrontendMessage.describe (decode_describe body)
      else if tag == b'C'
      then map_ok FrontendMessage.close (decode_close body)
      else if tag == b'E'
      then map_ok FrontendMessage.execute (decode_execute body)
      else if tag == b'F'
      then map_ok FrontendMessage.function_call (decode_function_call body)
      else if tag == b'H'
      then decode_empty FrontendMessage.flush body
      else if tag == b'Q'
      then map_ok FrontendMessage.query (decode_cstr_body body)
      else if tag == b'S'
      then decode_empty FrontendMessage.sync body
      else if tag == b'X'
      then decode_empty FrontendMessage.terminate body
      else if tag == b'c'
      then decode_empty FrontendMessage.copy_done body
      else if tag == b'd'
      then ok (FrontendMessage.copy_data body)
      else if tag == b'f'
      then map_ok FrontendMessage.copy_fail (decode_cstr_body body)
      else if tag == b'p'
      then ok (FrontendMessage.password_response body)
      else err (io_error invalid_data (unknown "frontend" tag))

  unfoldable pub decode : Frame → Result FrontendMessage
  unfolding decode_tagged
  decode f = decode_tagged f.tag f.body
