-- ===== src/Codec/Backend/Rounds.antt =====
-- src/codec.rs: each decoder of a backend body inverts its `to_frame`.
use pg_proto.Base.{
  ℕ, suc, ◌≡◌, refl, List, [], ◌∷◌, ◌++◌, arith, length, All, length-append, Bytes, IsU32, IsI16,
  ok, >>=-eq-ok,
}
use pg_proto.Wire.{Wire}
use pg_proto.Codec.Primitives.{
  require_empty, put_cstr, put_each, take_u8, put_u32, put_counted, put_i16_vec, take_nullable,
  put_nullable,
}
use pg_proto.Codec.Primitives.Inverse.{
  take_cstr-cstr, put_cstr-eq-ok, encode_all, length-encode_all, put_each-eq-ok, take_u32-put_u32,
}
use pg_proto.Codec.Primitives.Sequences.{
  put_i16_vec-eq-ok, take_i16_vec-i16_vec, put_u32s-eq-ok, take_u32s-u32s, put_values-eq-ok,
  take_values-values, take_value-nullable,
}
use pg_proto.Codec.Frame.{Frame}
use pg_proto.Codec.Parts.{start, given, more, frame_of_parts}
use pg_proto.Codec.Backend.Messages.{
  TransactionStatus, DiagnosticResponse, CopyResponse, DataRow, BackendMessage,
}
use pg_proto.Codec.Backend.Encode.{
  put_diagnostic_field, diagnostic_frame, data_row_to_frame, copy_response_frame,
  parameter_status_frame, notification_frame, backend_key_frame, parameter_description_frame,
  status_byte,
}
use pg_proto.Codec.Backend.Bodies.{
  decode_diagnostic, decode_parameter_status, decode_ready, status_of_byte, decode_notification,
  check_key, decode_backend_key_data, decode_data_row, decode_copy_response,
  decode_parameter_description,
}
use pg_proto.Codec.Backend.Loops.{
  IsField, field_bytes, put_diagnostic_field-eq-ok, take_diagnostic_fields-fields,
}

pub diagnostic_round :
    (tag : ℕ) (r : DiagnosticResponse) {f : Frame}
    → diagnostic_frame tag r ≡ ok f
    → (f.tag ≡ tag) × (decode_diagnostic f.body ≡ ok r)
unfolding diagnostic_frame decode_diagnostic require_empty
diagnostic_round tag r h =
    let (b1, w1, h1) = >>=-eq-ok (put_each put_diagnostic_field r.fields []) _ h in
    let (all, e1) =
      put_each-eq-ok put_diagnostic_field field_bytes IsField put_diagnostic_field-eq-ok r.fields []
        w1 in
    frame_of_parts decode_diagnostic r tag (more (start e1) refl) h1 (
      rw
        (take_diagnostic_fields-fields (suc (length (encode_all field_bytes r.fields ++ 0 ∷ [])))
          r.fields []
          (omega (
            arith,
            length-append (encode_all field_bytes r.fields) (0 ∷ []),
            length-encode_all field_bytes IsField 1 (λ f h. omega arith) r.fields all,
          ))
          all)
        refl)

pub ready_round :
    (s : TransactionStatus)
    → decode_ready (status_byte s ∷ []) ≡ ok (BackendMessage.ready_for_query s)
unfolding decode_ready status_of_byte take_u8 require_empty
ready_round TransactionStatus.idle = refl
ready_round TransactionStatus.in_transaction = refl
ready_round TransactionStatus.failed_transaction = refl

module _ ⦃w : Wire⦄ where
  pub parameter_status_round :
      (name value : Bytes) {f : Frame}
      → parameter_status_frame name value ≡ ok f
      → (f.tag ≡ b'S')
        × (decode_parameter_status f.body ≡ ok (BackendMessage.parameter_status name value))
  unfolding parameter_status_frame decode_parameter_status require_empty
  parameter_status_round name value h =
      let (b1, w1, h1) = >>=-eq-ok (put_cstr name []) _ h in
      let (b2, w2, h2) = >>=-eq-ok (put_cstr value b1) _ h1 in
      let (hn, e1) = put_cstr-eq-ok name [] w1 in
      let (hv, e2) = put_cstr-eq-ok value b1 w2 in
      frame_of_parts decode_parameter_status (BackendMessage.parameter_status name value) b'S'
        (more (start e1) e2) h2 (rw (take_cstr-cstr name _ hn) (rw (take_cstr-cstr value [] hv)))

  pub notification_round :
      (process_id : ℕ) (channel payload : Bytes) {f : Frame}
      → IsU32 process_id
      → notification_frame process_id channel payload ≡ ok f
      → (f.tag ≡ b'A')
        × (decode_notification f.body
            ≡ ok (BackendMessage.notification_response process_id channel payload))
  unfolding notification_frame decode_notification require_empty
  notification_round process_id channel payload t h =
      let (b1, w1, h1) = >>=-eq-ok (put_cstr channel (w.put_u32 process_id)) _ h in
      let (b2, w2, h2) = >>=-eq-ok (put_cstr payload b1) _ h1 in
      let (hc, e1) = put_cstr-eq-ok channel (w.put_u32 process_id) w1 in
      let (hp, e2) = put_cstr-eq-ok payload b1 w2 in
      frame_of_parts decode_notification
        (BackendMessage.notification_response process_id channel payload) b'A'
        (more (more (given (w.put_u32 process_id)) e1) e2) h2
        (rw (take_u32-put_u32 process_id _ t)
          (rw (take_cstr-cstr channel _ hc) (rw (take_cstr-cstr payload [] hp))))

  pub backend_key_round :
      (process_id : ℕ) (secret_key : Bytes) {f : Frame}
      → IsU32 process_id
      → backend_key_frame process_id secret_key ≡ ok f
      → (f.tag ≡ b'K')
        × (decode_backend_key_data f.body
            ≡ ok (BackendMessage.backend_key_data process_id secret_key))
  unfolding backend_key_frame decode_backend_key_data check_key
  backend_key_round process_id secret_key t h =
      ground (arith, take_u32-put_u32 process_id secret_key t)

  pub data_row_round :
      (m : DataRow) {f : Frame}
      → data_row_to_frame m ≡ ok f
      → (f.tag ≡ b'D') × (decode_data_row f.body ≡ ok m)
  unfolding data_row_to_frame decode_data_row require_empty put_nullable take_nullable
  data_row_round m h =
      let (b1, w1, h1) = >>=-eq-ok (put_counted put_nullable m.columns []) _ h in
      let (short, fits, e1) = put_values-eq-ok _ m.columns [] w1 in
      frame_of_parts decode_data_row m b'D' (start e1) h1 (
        rw
          (take_values-values "column count" take_nullable
            (take_value-nullable "negative value length") m.columns [] short fits)
          refl)

  pub copy_response_round :
      (tag : ℕ) (r : CopyResponse) {f : Frame}
      → All IsI16 r.column_formats
      → copy_response_frame tag r ≡ ok f
      → (f.tag ≡ tag) × (decode_copy_response f.body ≡ ok r)
  unfolding copy_response_frame decode_copy_response require_empty take_u8
  copy_response_round tag r t h =
      let (b1, w1, h1) = >>=-eq-ok (put_i16_vec r.column_formats (r.overall_format ∷ [])) _ h in
      let (short, e1) = put_i16_vec-eq-ok r.column_formats (r.overall_format ∷ []) w1 in
      frame_of_parts decode_copy_response r tag (more (given (r.overall_format ∷ [])) e1) h1
        (rw (take_i16_vec-i16_vec r.column_formats [] short t) refl)

  pub parameter_description_round :
      (types : List ℕ) {f : Frame}
      → All IsU32 types
      → parameter_description_frame types ≡ ok f
      → (f.tag ≡ b't') × (decode_parameter_description f.body ≡ ok types)
  unfolding parameter_description_frame decode_parameter_description require_empty
  parameter_description_round types t h =
      let (b1, w1, h1) = >>=-eq-ok (put_counted put_u32 types []) _ h in
      let (short, e1) = put_u32s-eq-ok types [] w1 in
      frame_of_parts decode_parameter_description types b't' (start e1) h1
        (rw (take_u32s-u32s "parameter type count" types [] short t) refl)
