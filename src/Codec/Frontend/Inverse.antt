-- ===== src/Codec/Frontend/Inverse.antt =====
-- Decoding what `to_frame` built, message by message.
use pg_proto.Base.{
  ℕ, ◌≡◌, refl, ap, ◌∙◌, [], ◌∷◌, ◌++◌, Option, arith, All, Bytes, IsU32, IsI16, IsI32, Result, ok,
  map_ok, >>=-eq-ok,
}
use pg_proto.Wire.{Wire}
use pg_proto.Codec.Primitives.{
  require_empty, put_cstr, take_u8, put_u32, put_counted, put_i16_vec, take_nullable, put_nullable,
}
use pg_proto.Codec.Primitives.Inverse.{
  take_cstr-cstr, put_cstr-eq-ok, take_u32-put_u32, take_i16-put_i16, take_i32-put_i32,
}
use pg_proto.Codec.Primitives.Sequences.{
  FitsValue, put_i16_vec-eq-ok, take_i16_vec-i16_vec, nullable, put_u32s-eq-ok, take_u32s-u32s,
  put_values-eq-ok, take_values-values, take_value-nullable,
}
use pg_proto.Codec.Frame.{Frame}
use pg_proto.Codec.Simple.{cstr_message, decode_empty, decode_cstr_body}
use pg_proto.Codec.Parts.{start, given, more, frame_of_parts}
use pg_proto.Codec.Frontend.Messages.{
  Parse, Bind, DescribeTarget, Describe, Close, Execute, FunctionCall, FrontendMessage,
}
use pg_proto.Codec.Frontend.Encode.{
  target_byte, named_target_frame, parse_to_frame, bind_to_frame, describe_to_frame, close_to_frame,
  execute_to_frame, function_call_to_frame, to_frame,
}
use pg_proto.Codec.Frontend.Decode.{
  take_target, take_parameter, decode_parse, decode_bind, decode_describe, decode_close,
  decode_execute, decode_function_call, decode_tagged, decode,
}

-- The ranges that the fields' Rust types give.
abbrev pub ParseIsTyped : Parse → Type 0
ParseIsTyped m = All IsU32 m.parameter_types

abbrev pub BindIsTyped : Bind → Type 0
BindIsTyped m = All IsI16 m.parameter_formats × All IsI16 m.result_formats

abbrev pub FunctionCallIsTyped : FunctionCall → Type 0
FunctionCallIsTyped m = IsU32 m.function_oid × All IsI16 m.argument_formats × IsI16 m.result_format

abbrev pub IsTyped : FrontendMessage → Type 0
IsTyped (FrontendMessage.parse m) = ParseIsTyped m
IsTyped (FrontendMessage.bind m) = BindIsTyped m
IsTyped (FrontendMessage.execute m) = IsI32 m.max_rows
IsTyped (FrontendMessage.function_call m) = FunctionCallIsTyped m
IsTyped _ = Unit {0}

-- Each of these inverts one `to_frame`: the tag, and the body as its decoder reads it.
module _ ⦃w : Wire⦄ where
  parse_round :
      (m : Parse) {f : Frame}
      → ParseIsTyped m
      → parse_to_frame m ≡ ok f
      → (f.tag ≡ b'P') × (decode_parse f.body ≡ ok m)
  unfolding parse_to_frame decode_parse require_empty
  parse_round m t h =
      let (b1, w1, h1) = >>=-eq-ok (put_cstr m.statement []) _ h in
      let (b2, w2, h2) = >>=-eq-ok (put_cstr m.query b1) _ h1 in
      let (b3, w3, h3) = >>=-eq-ok (put_counted put_u32 m.parameter_types b2) _ h2 in
      let (hs, e1) = put_cstr-eq-ok m.statement [] w1 in
      let (hq, e2) = put_cstr-eq-ok m.query b1 w2 in
      let (short, e3) = put_u32s-eq-ok m.parameter_types b2 w3 in
      frame_of_parts decode_parse m b'P' (more (more (start e1) e2) e3) h3 (
        rw (take_cstr-cstr m.statement _ hs) (
          rw (take_cstr-cstr m.query _ hq)
            (rw (take_u32s-u32s "parameter type count" m.parameter_types [] short t))))

  take_parameter-nullable :
      (v : Option Bytes) (rest : Bytes)
      → FitsValue v
      → take_parameter (nullable v ++ rest) ≡ ok (v, rest)
  unfolding take_parameter
  take_parameter-nullable = take_value-nullable "negative parameter length"

  bind_round :
      (m : Bind) {f : Frame}
      → BindIsTyped m
      → bind_to_frame m ≡ ok f
      → (f.tag ≡ b'B') × (decode_bind f.body ≡ ok m)
  unfolding bind_to_frame decode_bind require_empty
  bind_round m (typed_p, typed_r) h =
      let (b1, w1, h1) = >>=-eq-ok (put_cstr m.portal []) _ h in
      let (b2, w2, h2) = >>=-eq-ok (put_cstr m.statement b1) _ h1 in
      let (b3, w3, h3) = >>=-eq-ok (put_i16_vec m.parameter_formats b2) _ h2 in
      let (b4, w4, h4) = >>=-eq-ok (put_counted _ m.parameters b3) _ h3 in
      let (b5, w5, h5) = >>=-eq-ok (put_i16_vec m.result_formats b4) _ h4 in
      let (hp, e1) = put_cstr-eq-ok m.portal [] w1 in
      let (hs, e2) = put_cstr-eq-ok m.statement b1 w2 in
      let (s3, e3) = put_i16_vec-eq-ok m.parameter_formats b2 w3 in
      let (s4, fits, e4) = put_values-eq-ok _ m.parameters b3 w4 in
      let (s5, e5) = put_i16_vec-eq-ok m.result_formats b4 w5 in
      frame_of_parts decode_bind m b'B' (more (more (more (more (start e1) e2) e3) e4) e5) h5 (
        rw (take_cstr-cstr m.portal _ hp) (
          rw (take_cstr-cstr m.statement _ hs) (
            rw (take_i16_vec-i16_vec m.parameter_formats _ s3 typed_p) (
              rw
                (take_values-values "parameter count" take_parameter take_parameter-nullable
                  m.parameters _ s4 fits)
                (rw (take_i16_vec-i16_vec m.result_formats [] s5 typed_r))))))

  take_target-target_byte :
      (t : DescribeTarget) (rest : Bytes) → take_target (target_byte t ∷ rest) ≡ ok (t, rest)
  unfolding take_target take_u8
  take_target-target_byte DescribeTarget.statement rest = refl
  take_target-target_byte DescribeTarget.portal rest = refl

  describe_round :
      (m : Describe) {f : Frame}
      → describe_to_frame m ≡ ok f
      → (f.tag ≡ b'D') × (decode_describe f.body ≡ ok m)
  unfolding describe_to_frame decode_describe require_empty
  describe_round m h =
      let (b1, w1, h1) = >>=-eq-ok (put_cstr m.name (target_byte m.target ∷ [])) _ h in
      let (hn, e1) = put_cstr-eq-ok m.name (target_byte m.target ∷ []) w1 in
      frame_of_parts decode_describe m b'D' (more (given (target_byte m.target ∷ [])) e1) h1
        (rw (take_target-target_byte m.target _) (rw (take_cstr-cstr m.name [] hn)))

  close_round :
      (m : Close) {f : Frame}
      → close_to_frame m ≡ ok f
      → (f.tag ≡ b'C') × (decode_close f.body ≡ ok m)
  unfolding close_to_frame named_target_frame decode_close require_empty
  close_round m h =
      let (b1, w1, h1) = >>=-eq-ok (put_cstr m.name (target_byte m.target ∷ [])) _ h in
      let (hn, e1) = put_cstr-eq-ok m.name (target_byte m.target ∷ []) w1 in
      frame_of_parts decode_close m b'C' (more (given (target_byte m.target ∷ [])) e1) h1
        (rw (take_target-target_byte m.target _) (rw (take_cstr-cstr m.name [] hn)))

  execute_round :
      (m : Execute) {f : Frame}
      → IsI32 m.max_rows
      → execute_to_frame m ≡ ok f
      → (f.tag ≡ b'E') × (decode_execute f.body ≡ ok m)
  unfolding execute_to_frame decode_execute require_empty
  execute_round m t h =
      let (b1, w1, h1) = >>=-eq-ok (put_cstr m.portal []) _ h in
      let (hp, e1) = put_cstr-eq-ok m.portal [] w1 in
      frame_of_parts decode_execute m b'E' (more (start e1) refl) h1
        (rw (take_cstr-cstr m.portal _ hp) (rw (take_i32-put_i32 m.max_rows [] t)))

  take_nullable-nullable :
      (v : Option Bytes) (rest : Bytes)
      → FitsValue v
      → take_nullable (nullable v ++ rest) ≡ ok (v, rest)
  unfolding take_nullable
  take_nullable-nullable = take_value-nullable "negative value length"

  function_call_round :
      (m : FunctionCall) {f : Frame}
      → FunctionCallIsTyped m
      → function_call_to_frame m ≡ ok f
      → (f.tag ≡ b'F') × (decode_function_call f.body ≡ ok m)
  unfolding function_call_to_frame decode_function_call require_empty put_nullable
  function_call_round m (typed_o, typed_f, typed_r) h =
      let (b1, w1, h1) =
        >>=-eq-ok (put_i16_vec m.argument_formats (w.put_u32 m.function_oid)) _ h in
      let (b2, w2, h2) = >>=-eq-ok (put_counted _ m.arguments b1) _ h1 in
      let (s1, e1) = put_i16_vec-eq-ok m.argument_formats (w.put_u32 m.function_oid) w1 in
      let (s2, fits, e2) = put_values-eq-ok _ m.arguments b1 w2 in
      frame_of_parts decode_function_call m b'F'
        (more (more (more (given (w.put_u32 m.function_oid)) e1) e2) refl) h2
        (rw (take_u32-put_u32 m.function_oid _ typed_o) (
          rw (take_i16_vec-i16_vec m.argument_formats _ s1 typed_f) (
            rw
              (take_values-values "argument count" take_nullable take_nullable-nullable m.arguments
                _ s2 fits)
              (rw (take_i16-put_i16 m.result_format [] typed_r)))))

  pub cstr_message_round :
      (t : ℕ) (v : Bytes) {f : Frame}
      → cstr_message t v ≡ ok f
      → (f.tag ≡ t) × (decode_cstr_body f.body ≡ ok v)
  unfolding cstr_message decode_cstr_body require_empty
  cstr_message_round t v h =
      let (b1, w1, h1) = >>=-eq-ok (put_cstr v []) _ h in
      let (hv, e1) = put_cstr-eq-ok v [] w1 in
      frame_of_parts decode_cstr_body v t (start e1) h1 (rw (take_cstr-cstr v [] hv))

  -- A decoded part, under the tag that selects its decoder.
  select {ℓ} :
      {D : Type ℓ} (f : Frame) (t : ℕ) (d : Bytes → Result D) (c : D → FrontendMessage) (m : D)
      → ((body : Bytes) → decode_tagged t body ≡ map_ok c (d body))
      → (f.tag ≡ t) × (d f.body ≡ ok m)
      → decode f ≡ ok (c m)
  unfolding decode
  select f t d c m at (e, h) = rw (e, decode) (at f.body ∙ ap (map_ok c) h)

  -- Decoding the frame that `to_frame` builds of a message whose integers have the ranges of their
  -- Rust types gives the message.
  pub decode-to_frame :
      (m : FrontendMessage) {f : Frame} → IsTyped m → to_frame m ≡ ok f → decode f ≡ ok m
  unfolding to_frame
  decode-to_frame (FrontendMessage.parse m) {f} t h =
      select f b'P' decode_parse FrontendMessage.parse m (λ b. unfold decode_tagged in refl)
        (parse_round m t h)
  decode-to_frame (FrontendMessage.bind m) {f} t h =
      select f b'B' decode_bind FrontendMessage.bind m (λ b. unfold decode_tagged in refl)
        (bind_round m t h)
  decode-to_frame (FrontendMessage.describe m) {f} t h =
      select f b'D' decode_describe FrontendMessage.describe m (λ b. unfold decode_tagged in refl)
        (describe_round m h)
  decode-to_frame (FrontendMessage.close m) {f} t h =
      select f b'C' decode_close FrontendMessage.close m (λ b. unfold decode_tagged in refl)
        (close_round m h)
  decode-to_frame (FrontendMessage.execute m) {f} t h =
      select f b'E' decode_execute FrontendMessage.execute m (λ b. unfold decode_tagged in refl)
        (execute_round m t h)
  decode-to_frame (FrontendMessage.function_call m) {f} t h =
      select f b'F' decode_function_call FrontendMessage.function_call m
        (λ b. unfold decode_tagged in refl) (function_call_round m t h)
  decode-to_frame (FrontendMessage.query q) {f} t h =
      select f b'Q' decode_cstr_body FrontendMessage.query q (λ b. unfold decode_tagged in refl)
        (cstr_message_round b'Q' q h)
  decode-to_frame (FrontendMessage.copy_fail q) {f} t h =
      select f b'f' decode_cstr_body FrontendMessage.copy_fail q (λ b. unfold decode_tagged in refl)
        (cstr_message_round b'f' q h)
  decode-to_frame FrontendMessage.flush {f} t h =
      unfold decode decode_empty require_empty in ground arith
  decode-to_frame FrontendMessage.sync {f} t h =
      unfold decode decode_empty require_empty in ground arith
  decode-to_frame FrontendMessage.terminate {f} t h =
      unfold decode decode_empty require_empty in ground arith
  decode-to_frame FrontendMessage.copy_done {f} t h =
      unfold decode decode_empty require_empty in ground arith
  decode-to_frame (FrontendMessage.copy_data d) {f} t h = unfold decode in ground arith
  decode-to_frame (FrontendMessage.password_response d) {f} t h = unfold decode in ground arith
