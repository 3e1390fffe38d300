-- ===== src/Codec/Backend/Encode.antt =====
-- src/codec.rs, `to_frame` of the backend messages.
use pg_proto.Base.{
  ℕ, ◌+◌, ◌*◌, ◌^◌, ◌++◌, ◌∷◌, [], ◌&&◌, not, leb, ◌==◌, if◌then◌else◌, length, Bytes, Result, ok,
  err, ◌>>=◌, map_ok, Bool, List,
}
use pg_proto.Wire.{Wire}
use pg_proto.Codec.Primitives.{
  bad_input, put_cstr, put_each, put_u32, put_counted, put_i16_vec, put_nullable,
}
use pg_proto.Codec.Frame.{Frame}
use pg_proto.Codec.Simple.{frame, empty_message, cstr_message}
use pg_proto.Codec.Backend.Messages.{
  FieldDescription, RowDescription, Authentication, authentication_ok, kerberos_v5,
  cleartext_password, md5_password, gss, gss_continue, sspi, sasl, sasl_continue, sasl_final,
  TransactionStatus, idle, in_transaction, failed_transaction, NegotiateProtocolVersion,
  DiagnosticField, DiagnosticResponse, CopyResponse, DataRow, BackendMessage,
}

abbrev pub status_byte : TransactionStatus → ℕ
status_byte idle = b'I'
status_byte in_transaction = b'T'
status_byte failed_transaction = b'E'

unfoldable pub put_diagnostic_field : DiagnosticField → Bytes → Result Bytes
put_diagnostic_field field body =
    if field.code == 0
    then err (bad_input "diagnostic field code cannot be zero")
    else put_cstr field.value (body ++ field.code ∷ [])

unfoldable pub diagnostic_frame : ℕ → DiagnosticResponse → Result Frame
diagnostic_frame tag response = do
  body ← put_each put_diagnostic_field response.fields []
  ok (frame tag (body ++ 0 ∷ []))

-- `(4..=256).contains(&secret_key.len())`.
abbrev pub key_length_allowed : Bytes → Bool
key_length_allowed secret_key = leb 4 (length secret_key) && leb (length secret_key) 256

module _ ⦃w : Wire⦄ where
  unfoldable pub put_field : FieldDescription → Bytes → Result Bytes
  put_field field body = do
    body ← put_cstr field.name body
    ok (
        body
        ++ (w.put_u32 field.table_oid
            ++ (w.put_i16 field.column
                ++ (w.put_u32 field.type_oid
                    ++ (w.put_i16 field.type_size
                        ++ (w.put_i32 field.type_modifier ++ w.put_i16 field.format))))))

  unfoldable pub row_description_to_frame : RowDescription → Result Frame
  row_description_to_frame m = do body ← put_counted put_field m.fields []; ok (frame b'T' body)

  unfoldable pub data_row_to_frame : DataRow → Result Frame
  data_row_to_frame m = do body ← put_counted put_nullable m.columns []; ok (frame b'D' body)

  unfoldable pub copy_response_frame : ℕ → CopyResponse → Result Frame
  copy_response_frame tag response = do
    body ← put_i16_vec response.column_formats (response.overall_format ∷ [])
    ok (frame tag body)

  unfoldable pub authentication_body : Authentication → Result Bytes
  authentication_body authentication_ok = ok (w.put_u32 0)
  authentication_body kerberos_v5 = ok (w.put_u32 2)
  authentication_body cleartext_password = ok (w.put_u32 3)
  authentication_body (md5_password a b c d) = ok (w.put_u32 5 ++ a ∷ b ∷ c ∷ d ∷ [])
  authentication_body gss = ok (w.put_u32 7)
  authentication_body (gss_continue token) = ok (w.put_u32 8 ++ token)
  authentication_body sspi = ok (w.put_u32 9)
  authentication_body (sasl mechanisms) = do
    body ← put_each put_cstr mechanisms (w.put_u32 10)
    ok (body ++ 0 ∷ [])
  authentication_body (sasl_continue challenge) = ok (w.put_u32 11 ++ challenge)
  authentication_body (sasl_final final) = ok (w.put_u32 12 ++ final)

  unfoldable pub authentication_frame : Authentication → Result Frame
  unfolding authentication_body
  authentication_frame authentication = do
    body ← authentication_body authentication
    ok (frame b'R' body)

  unfoldable pub parameter_status_frame : Bytes → Bytes → Result Frame
  parameter_status_frame name value = do
    body ← put_cstr name []
    body ← put_cstr value body
    ok (frame b'S' body)

  unfoldable pub notification_frame : ℕ → Bytes → Bytes → Result Frame
  notification_frame process_id channel payload = do
    body ← put_cstr channel (w.put_u32 process_id)
    body ← put_cstr payload body
    ok (frame b'A' body)

  unfoldable pub backend_key_frame : ℕ → Bytes → Result Frame
  backend_key_frame process_id secret_key =
      if not (key_length_allowed secret_key)
      then err (bad_input "cancellation key length is outside 4..=256")
      else ok (frame b'K' (w.put_u32 process_id ++ secret_key))

  unfoldable pub parameter_description_frame : List ℕ → Result Frame
  parameter_description_frame types = do body ← put_counted put_u32 types []; ok (frame b't' body)

  -- `(u32::from(major) << 16) | u32::from(minor)`: the two halves do not overlap.
  unfoldable pub negotiate_to_frame : NegotiateProtocolVersion → Result Frame
  negotiate_to_frame m =
      if leb (2 ^ 32) (length m.unsupported_options)
      then err (bad_input "unsupported option count exceeds u32")
      else map_ok (frame b'v') (
          put_each put_cstr m.unsupported_options (
            w.put_u32 (m.newest.major * 2 ^ 16 + m.newest.minor)
            ++ w.put_u32 (length m.unsupported_options)))

  unfoldable pub to_frame : BackendMessage → Result Frame
  to_frame (BackendMessage.row_description m) = row_description_to_frame m
  to_frame (BackendMessage.authentication m) = authentication_frame m
  to_frame BackendMessage.parse_complete = ok (empty_message b'1')
  to_frame BackendMessage.bind_complete = ok (empty_message b'2')
  to_frame BackendMessage.close_complete = ok (empty_message b'3')
  to_frame (BackendMessage.command_complete tag) = cstr_message b'C' tag
  to_frame (BackendMessage.copy_data content) = ok (frame b'd' content)
  to_frame BackendMessage.copy_done = ok (empty_message b'c')
  to_frame (BackendMessage.copy_in_response r) = copy_response_frame b'G' r
  to_frame (BackendMessage.copy_out_response r) = copy_response_frame b'H' r
  to_frame (BackendMessage.copy_both_response r) = copy_response_frame b'W' r
  to_frame (BackendMessage.data_row row) = data_row_to_frame row
  to_frame BackendMessage.empty_query_response = ok (empty_message b'I')
  to_frame (BackendMessage.error_response r) = diagnostic_frame b'E' r
  to_frame BackendMessage.no_data = ok (empty_message b'n')
  to_frame (BackendMessage.parameter_status name value) = parameter_status_frame name value
  to_frame (BackendMessage.notice_response r) = diagnostic_frame b'N' r
  to_frame (BackendMessage.notification_response process_id channel payload) =
      notification_frame process_id channel payload
  to_frame (BackendMessage.backend_key_data process_id secret_key) =
      backend_key_frame process_id secret_key
  to_frame (BackendMessage.ready_for_query status) = ok (frame b'Z' (status_byte status ∷ []))
  to_frame (BackendMessage.parameter_description types) = parameter_description_frame types
  to_frame BackendMessage.portal_suspended = ok (empty_message b's')
  to_frame (BackendMessage.function_call_response content) = ok (frame b'V' content)
  to_frame (BackendMessage.negotiate_protocol_version m) = negotiate_to_frame m
