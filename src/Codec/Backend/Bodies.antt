-- ===== src/Codec/Backend/Bodies.antt =====
-- src/codec.rs, the decoders of the backend bodies. The two loops that have no count take the
-- number of bytes left as fuel: each round takes at least one.
use pg_proto.Base.{
  ℕ, zero, suc, ◌/◌, ◌%◌, ◌^◌, ◌∷◌, [], List, not, ◌==◌, if◌then◌else◌, length, Bytes, Result, ok,
  err, ◌>>=◌, ◌>>◌,
}
use pg_proto.Wire.{Wire}
use pg_proto.Codec.Primitives.{
  invalid, require_empty, require_collection_bytes, take_cstr, take_u8, take_u32, take_i16,
  take_i32, take_many, take_counted, take_i16_vec, take_nullable,
}
use pg_proto.Codec.Backend.Messages.{
  FieldDescription, RowDescription, Authentication, authentication_ok, kerberos_v5,
  cleartext_password, md5_password, gss, gss_continue, sspi, sasl, sasl_continue, sasl_final,
  TransactionStatus, idle, in_transaction, failed_transaction, DiagnosticField, DiagnosticResponse,
  CopyResponse, DataRow, BackendMessage,
}
use pg_proto.Codec.Backend.Encode.{key_length_allowed}

-- `while !body.is_empty() && body[0] != 0 { push(take_cstr(&mut body)?) }`.
unfoldable pub take_mechanisms : ℕ → Bytes → Result (List Bytes × Bytes)
take_mechanisms zero body = err (invalid "truncated message body")
take_mechanisms (suc fuel) [] = ok ([], [])
take_mechanisms (suc fuel) (zero ∷ rest) = ok ([], zero ∷ rest)
take_mechanisms (suc fuel) (suc b ∷ rest) = do
  (mechanism, body) ← take_cstr (suc b ∷ rest)
  (mechanisms, body) ← take_mechanisms fuel body
  ok (mechanism ∷ mechanisms, body)

-- `loop { require(1)?; code = get_u8(); if code == 0 { break } push(code, take_cstr(..)?) }`.
unfoldable pub take_diagnostic_fields : ℕ → Bytes → Result (List DiagnosticField × Bytes)
take_diagnostic_fields zero body = err (invalid "truncated message body")
take_diagnostic_fields (suc fuel) [] = err (invalid "truncated message body")
take_diagnostic_fields (suc fuel) (zero ∷ rest) = ok ([], rest)
take_diagnostic_fields (suc fuel) (suc code ∷ rest) = do
  (value, body) ← take_cstr rest
  (fields, body) ← take_diagnostic_fields fuel body
  ok (record { code = suc code; value = value } ∷ fields, body)

unfoldable pub decode_diagnostic : Bytes → Result DiagnosticResponse
decode_diagnostic body = do
  (fields, body) ← take_diagnostic_fields (suc (length body)) body
  require_empty body
  ok (record { fields = fields })

unfoldable pub decode_parameter_status : Bytes → Result BackendMessage
decode_parameter_status body = do
  (name, body) ← take_cstr body
  (value, body) ← take_cstr body
  require_empty body
  ok (BackendMessage.parameter_status name value)

unfoldable pub status_of_byte : ℕ → Result TransactionStatus
status_of_byte b =
    if b == b'I'
    then ok idle
    else if b == b'T'
    then ok in_transaction
    else if b == b'E'
    then ok failed_transaction
    else err (invalid "unknown transaction status")

unfoldable pub decode_ready : Bytes → Result BackendMessage
unfolding status_of_byte
decode_ready body = do
  (b, body) ← take_u8 body
  status ← status_of_byte b
  require_empty body
  ok (BackendMessage.ready_for_query status)

module _ ⦃w : Wire⦄ where
  unfoldable pub take_salt : Bytes → Result (Authentication × Bytes)
  take_salt (a ∷ b ∷ c ∷ d ∷ rest) = ok (md5_password a b c d, rest)
  take_salt _ = err (invalid "truncated message body")

  unfoldable pub take_sasl : Bytes → Result (Authentication × Bytes)
  take_sasl body = do
    (mechanisms, body) ← take_mechanisms (suc (length body)) body
    (terminator, body) ← take_u8 body
    ok (sasl mechanisms, body)

  -- `match kind`, with what is left of the body.
  unfoldable pub take_authentication : ℕ → Bytes → Result (Authentication × Bytes)
  unfolding take_salt take_sasl
  take_authentication kind body =
      if kind == 0
      then ok (authentication_ok, body)
      else if kind == 2
      then ok (kerberos_v5, body)
      else if kind == 3
      then ok (cleartext_password, body)
      else if kind == 5
      then take_salt body
      else if kind == 7
      then ok (gss, body)
      else if kind == 8
      then ok (gss_continue body, [])
      else if kind == 9
      then ok (sspi, body)
      else if kind == 10
      then take_sasl body
      else if kind == 11
      then ok (sasl_continue body, [])
      else if kind == 12
      then ok (sasl_final body, [])
      else err (invalid "unknown authentication request")

  unfoldable pub decode_authentication : Bytes → Result Authentication
  decode_authentication body = do
    (kind, body) ← take_u32 body
    (auth, body) ← take_authentication kind body
    require_empty body
    ok auth

  unfoldable pub decode_notification : Bytes → Result BackendMessage
  decode_notification body = do
    (process_id, body) ← take_u32 body
    (channel, body) ← take_cstr body
    (payload, body) ← take_cstr body
    require_empty body
    ok (BackendMessage.notification_response process_id channel payload)

  unfoldable pub check_key : ℕ → Bytes → Result BackendMessage
  check_key process_id secret_key =
      if not (key_length_allowed secret_key)
      then err (invalid "cancellation key length is outside 4..=256")
      else ok (BackendMessage.backend_key_data process_id secret_key)

  unfoldable pub decode_backend_key_data : Bytes → Result BackendMessage
  unfolding check_key
  decode_backend_key_data body = do (process_id, body) ← take_u32 body; check_key process_id body

  -- `newest >> 16` and `newest & 0xffff`.
  unfoldable pub decode_negotiate_protocol_version : Bytes → Result BackendMessage
  decode_negotiate_protocol_version body = do
    (newest, body) ← take_u32 body
    (count, body) ← take_u32 body
    require_collection_bytes count (length body) 1 "unsupported option count"
    (options, body) ← take_many take_cstr count body
    require_empty body
    ok (
        BackendMessage.negotiate_protocol_version (record {
          newest = record { major = newest / 2 ^ 16; minor = newest % 2 ^ 16 };
          unsupported_options = options;
        }))

  unfoldable pub decode_data_row : Bytes → Result DataRow
  decode_data_row body = do
    (columns, body) ← take_counted "column count" 4 take_nullable body
    require_empty body
    ok (record { columns = columns })

  unfoldable pub decode_copy_response : Bytes → Result CopyResponse
  decode_copy_response body = do
    (overall_format, body) ← take_u8 body
    (column_formats, body) ← take_i16_vec body
    require_empty body
    ok (record { overall_format = overall_format; column_formats = column_formats })

  unfoldable pub decode_parameter_description : Bytes → Result (List ℕ)
  decode_parameter_description body = do
    (types, body) ← take_counted "parameter type count" 4 take_u32 body
    require_empty body
    ok types

  unfoldable pub take_field : Bytes → Result (FieldDescription × Bytes)
  take_field body = do
    (name, body) ← take_cstr body
    (table_oid, body) ← take_u32 body
    (column, body) ← take_i16 body
    (type_oid, body) ← take_u32 body
    (type_size, body) ← take_i16 body
    (type_modifier, body) ← take_i32 body
    (format, body) ← take_i16 body
    ok (
      record {
        name = name;
        table_oid = table_oid;
        column = column;
        type_oid = type_oid;
        type_size = type_size;
        type_modifier = type_modifier;
        format = format;
      },
      body,
    )

  unfoldable pub decode_row_description : Bytes → Result RowDescription
  decode_row_description body = do
    (fields, body) ← take_counted "field count" 19 take_field body
    require_empty body
    ok (record { fields = fields })
