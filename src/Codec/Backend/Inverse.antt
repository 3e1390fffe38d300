-- ===== src/Codec/Backend/Inverse.antt =====
-- src/codec.rs: `Backend::decode` inverts `to_frame` of the backend messages.
use pg_proto.Base.{
  ℕ, ◌≡◌, refl, ap, ◌∙◌, arith, All, Bytes, IsU16, IsU32, IsI16, Result, ok, map_ok,
}
use pg_proto.Wire.{Wire}
use pg_proto.Codec.Primitives.{require_empty}
use pg_proto.Codec.Frame.{Frame}
use pg_proto.Codec.Simple.{decode_empty, decode_cstr_body}
use pg_proto.Codec.Frontend.Inverse.{cstr_message_round}
use pg_proto.Codec.Backend.Messages.{BackendMessage}
use pg_proto.Codec.Backend.Encode.{to_frame}
use pg_proto.Codec.Backend.Bodies.{
  decode_authentication, decode_diagnostic, decode_data_row, decode_copy_response,
  decode_parameter_description, decode_row_description, decode_parameter_status,
  decode_notification, decode_backend_key_data, decode_negotiate_protocol_version, decode_ready,
}
use pg_proto.Codec.Backend.Decode.{decode_late, decode_tagged, decode}
use pg_proto.Codec.Backend.Rounds.{
  diagnostic_round, parameter_status_round, ready_round, notification_round, backend_key_round,
  data_row_round, copy_response_round, parameter_description_round,
}
use pg_proto.Codec.Backend.Fields.{FieldIsTyped, row_description_round, negotiate_round}
use pg_proto.Codec.Backend.Authentications.{authentication_round}
use pg_proto.Codec.Backend.Named.{NamesMechanisms}

-- The ranges that the fields' Rust types give.
abbrev pub IsTyped : BackendMessage → Type 0
IsTyped (BackendMessage.row_description m) = All FieldIsTyped m.fields
IsTyped (BackendMessage.copy_in_response r) = All IsI16 r.column_formats
IsTyped (BackendMessage.copy_out_response r) = All IsI16 r.column_formats
IsTyped (BackendMessage.copy_both_response r) = All IsI16 r.column_formats
IsTyped (BackendMessage.notification_response process_id channel payload) = IsU32 process_id
IsTyped (BackendMessage.backend_key_data process_id secret_key) = IsU32 process_id
IsTyped (BackendMessage.parameter_description types) = All IsU32 types
IsTyped (BackendMessage.negotiate_protocol_version m) = IsU16 m.newest.major × IsU16 m.newest.minor
IsTyped _ = Unit {0}

module _ ⦃w : Wire⦄ where
  -- A decoded part, under the tag that selects its decoder.
  select {ℓ} :
      {D : Type ℓ} (f : Frame) (t : ℕ) (d : Bytes → Result D) (c : D → BackendMessage) (m : D)
      → ((body : Bytes) → decode_tagged t body ≡ map_ok c (d body))
      → (f.tag ≡ t) × (d f.body ≡ ok m)
      → decode f ≡ ok (c m)
  unfolding decode
  select f t d c m at (e, h) = rw (e, decode) (at f.body ∙ ap (map_ok c) h)

  -- The same where the decoder builds the message itself.
  select_whole :
      (f : Frame) (t : ℕ) (d : Bytes → Result BackendMessage) (m : BackendMessage)
      → ((body : Bytes) → decode_tagged t body ≡ d body)
      → (f.tag ≡ t) × (d f.body ≡ ok m)
      → decode f ≡ ok m
  unfolding decode
  select_whole f t d m at (e, h) = rw (e, decode) (at f.body ∙ h)

  -- Decoding the frame that `to_frame` builds of a backend message gives the message, when its
  -- integers have the ranges of their Rust types and it offers no SASL mechanism with an empty name.
  pub decode-to_frame :
      (m : BackendMessage) {f : Frame}
      → IsTyped m
      → NamesMechanisms m
      → to_frame m ≡ ok f
      → decode f ≡ ok m
  unfolding to_frame
  decode-to_frame (BackendMessage.row_description m) {f} t n h =
      select f b'T' decode_row_description BackendMessage.row_description m
        (λ b. unfold decode_tagged decode_late in refl) (row_description_round m t h)
  decode-to_frame (BackendMessage.authentication a) {f} t n h =
      select f b'R' decode_authentication BackendMessage.authentication a
        (λ b. unfold decode_tagged decode_late in refl) (authentication_round a n h)
  decode-to_frame (BackendMessage.copy_in_response r) {f} t n h =
      select f b'G' decode_copy_response BackendMessage.copy_in_response r
        (λ b. unfold decode_tagged decode_late in refl) (copy_response_round b'G' r t h)
  decode-to_frame (BackendMessage.copy_out_response r) {f} t n h =
      select f b'H' decode_copy_response BackendMessage.copy_out_response r
        (λ b. unfold decode_tagged decode_late in refl) (copy_response_round b'H' r t h)
  decode-to_frame (BackendMessage.copy_both_response r) {f} t n h =
      select f b'W' decode_copy_response BackendMessage.copy_both_response r
        (λ b. unfold decode_tagged decode_late in refl) (copy_response_round b'W' r t h)
  decode-to_frame (BackendMessage.data_row m) {f} t n h =
      select f b'D' decode_data_row BackendMessage.data_row m
        (λ b. unfold decode_tagged decode_late in refl) (data_row_round m h)
  decode-to_frame (BackendMessage.error_response r) {f} t n h =
      select f b'E' decode_diagnostic BackendMessage.error_response r
        (λ b. unfold decode_tagged decode_late in refl) (diagnostic_round b'E' r h)
  decode-to_frame (BackendMessage.notice_response r) {f} t n h =
      select f b'N' decode_diagnostic BackendMessage.notice_response r
        (λ b. unfold decode_tagged decode_late in refl) (diagnostic_round b'N' r h)
  decode-to_frame (BackendMessage.parameter_description types) {f} t n h =
      select f b't' decode_parameter_description BackendMessage.parameter_description types
        (λ b. unfold decode_tagged decode_late in refl) (parameter_description_round types t h)
  decode-to_frame (BackendMessage.command_complete tag) {f} t n h =
      select f b'C' decode_cstr_body BackendMessage.command_complete tag
        (λ b. unfold decode_tagged decode_late in refl) (cstr_message_round b'C' tag h)
  decode-to_frame (BackendMessage.parameter_status name value) {f} t n h =
      select_whole f b'S' decode_parameter_status (BackendMessage.parameter_status name value)
        (λ b. unfold decode_tagged decode_late in refl) (parameter_status_round name value h)
  decode-to_frame (BackendMessage.notification_response process_id channel payload) {f} t n h =
      select_whole f b'A' decode_notification
        (BackendMessage.notification_response process_id channel payload)
        (λ b. unfold decode_tagged decode_late in refl)
        (notification_round process_id channel payload t h)
  decode-to_frame (BackendMessage.backend_key_data process_id secret_key) {f} t n h =
      select_whole f b'K' decode_backend_key_data
        (BackendMessage.backend_key_data process_id secret_key)
        (λ b. unfold decode_tagged decode_late in refl)
        (backend_key_round process_id secret_key t h)
  decode-to_frame (BackendMessage.negotiate_protocol_version m) {f} t n h =
      select_whole f b'v' decode_negotiate_protocol_version
        (BackendMessage.negotiate_protocol_version m)
        (λ b. unfold decode_tagged decode_late in refl) (negotiate_round m t h)
  decode-to_frame (BackendMessage.ready_for_query s) {f} t n h =
      select_whole f b'Z' decode_ready (BackendMessage.ready_for_query s)
        (λ b. unfold decode_tagged decode_late in refl)
        (ground arith, ground (arith, ready_round s))
  decode-to_frame BackendMessage.parse_complete {f} t n h =
      unfold decode decode_empty require_empty in ground arith
  decode-to_frame BackendMessage.bind_complete {f} t n h =
      unfold decode decode_empty require_empty in ground arith
  decode-to_frame BackendMessage.close_complete {f} t n h =
      unfold decode decode_empty require_empty in ground arith
  decode-to_frame BackendMessage.copy_done {f} t n h =
      unfold decode decode_empty require_empty in ground arith
  decode-to_frame BackendMessage.empty_query_response {f} t n h =
      unfold decode decode_empty require_empty in ground arith
  decode-to_frame BackendMessage.no_data {f} t n h =
      unfold decode decode_empty require_empty in ground arith
  decode-to_frame BackendMessage.portal_suspended {f} t n h =
      unfold decode decode_empty require_empty in ground arith
  decode-to_frame (BackendMessage.copy_data d) {f} t n h = unfold decode in ground arith
  decode-to_frame (BackendMessage.function_call_response d) {f} t n h =
      unfold decode decode_late in ground arith
