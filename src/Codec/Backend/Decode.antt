-- ===== src/Codec/Backend/Decode.antt =====
-- src/codec.rs, `Backend::decode`.
use pg_proto.Base.{
  ℕ, Bytes, ◌==◌, if◌then◌else◌, Result, ok, err, map_ok, invalid_data, unknown, io_error,
}
use pg_proto.Wire.{Wire}
use pg_proto.Codec.Frame.{Frame}
use pg_proto.Codec.Simple.{decode_empty, decode_cstr_body}
use pg_proto.Codec.Backend.Messages.{BackendMessage}
use pg_proto.Codec.Backend.Bodies.{
  decode_diagnostic, decode_parameter_status, decode_ready, decode_authentication,
  decode_notification, decode_backend_key_data, decode_negotiate_protocol_version, decode_data_row,
  decode_copy_response, decode_parameter_description, decode_row_description,
}

module _ ⦃w : Wire⦄ where
  -- The arms of `match frame.tag` from `T` on.
  unfoldable pub decode_late : ℕ → Bytes → Result BackendMessage
  decode_late tag body =
      if tag == b'T'
      then map_ok BackendMessage.row_description (decode_row_description body)
      else if tag == b'V'
      then ok (BackendMessage.function_call_response body)
      else if tag == b'W'
      then map_ok BackendMessage.copy_both_response (decode_copy_response body)
      else if tag == b'R'
      then map_ok BackendMessage.authentication (decode_authentication body)
      else if tag == b'S'
      then decode_parameter_status body
      else if tag == b'N'
      then map_ok BackendMessage.notice_response (decode_diagnostic body)
      else if tag == b'A'
      then decode_notification body
      else if tag == b'K'
      then decode_backend_key_data body
      else if tag == b'Z'
      then decode_ready body
      else if tag == b'v'
      then decode_negotiate_protocol_version body
      else err (io_error invalid_data (unknown "backend" tag))

  unfoldable pub decode_tagged : ℕ → Bytes → Result BackendMessage
  unfolding decode_late
  decode_tagged tag body =
      if tag == b'1'
      then decode_empty BackendMessage.parse_complete body
      else if tag == b'2'
      then decode_empty BackendMessage.bind_complete body
      else if tag == b'3'
      then decode_empty BackendMessage.close_complete body
      else if tag == b'C'
      then map_ok BackendMessage.command_complete (decode_cstr_body body)
      else if tag == b'c'
      then decode_empty BackendMessage.copy_done body
      else if tag == b'd'
      then ok (BackendMessage.copy_data body)
      else if tag == b'D'
      then map_ok BackendMessage.data_row (decode_data_row body)
      else if tag == b'E'
      then map_ok BackendMessage.error_response (decode_diagnostic body)
      else if tag == b'G'
      then map_ok BackendMessage.copy_in_response (decode_copy_response body)
      else if tag == b'H'
      then map_ok BackendMessage.copy_out_response (decode_copy_response body)
      else if tag == b'I'
      then decode_empty BackendMessage.empty_query_response body
      else if tag == b'n'
      then decode_empty BackendMessage.no_data body
      else if tag == b's'
      then decode_empty BackendMessage.portal_suspended body
      else if tag == b't'
      then map_ok BackendMessage.parameter_description (decode_parameter_description body)
      else decode_late tag body

  unfoldable pub decode : Frame → Result BackendMessage
  unfolding decode_tagged
  decode f = decode_tagged f.tag f.body
