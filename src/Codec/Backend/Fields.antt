-- ===== src/Codec/Backend/Fields.antt =====
-- src/codec.rs: the decoders of row descriptions and of protocol versions invert `to_frame`.
use pg_proto.Base.{
  ℕ, ◌+◌, ◌*◌, ◌/◌, ◌%◌, ◌^◌, ◌≤◌, ◌≡◌, refl, ap, ◌∙◌, List, [], ◌∷◌, ◌++◌, arith, length, All,
  length-append, append_assoc, Bytes, IsU16, IsU32, IsI16, IsI32, ok, >>=-eq-ok, map_ok-eq-ok,
  Bool-cases, inl, inr, false, leb,
}
use pg_proto.Wire.{Wire}
use pg_proto.Codec.Primitives.{
  require_empty, require_collection_bytes, put_cstr, take_cstr, put_counted,
}
use pg_proto.Codec.Primitives.Inverse.{
  HasNoNul, cstr, take_cstr-cstr, put_cstr-eq-ok, encode_all, length-encode_all,
  take_many-encode_all, put_each-eq-ok, take_u32-put_u32, take_i16-put_i16, take_i32-put_i32,
  length-put_u32, length-put_i16, length-put_i32,
}
use pg_proto.Codec.Primitives.Sequences.{put_counted-eq-ok, take_counted-counted}
use pg_proto.Codec.Frame.{Frame}
use pg_proto.Codec.Parts.{start, given, more, frame_of_parts}
use pg_proto.Codec.Backend.Messages.{
  FieldDescription, RowDescription, BackendMessage, NegotiateProtocolVersion,
}
use pg_proto.Codec.Backend.Encode.{put_field, row_description_to_frame, negotiate_to_frame}
use pg_proto.Codec.Backend.Bodies.{
  decode_negotiate_protocol_version, take_field, decode_row_description,
}

-- The ranges that the fields' Rust types give.
abbrev pub FieldIsTyped : FieldDescription → Type 0
FieldIsTyped f =
    IsU32 f.table_oid
    × IsI16 f.column
    × IsU32 f.type_oid
    × IsI16 f.type_size
    × IsI32 f.type_modifier
    × IsI16 f.format

append_seven :
    (a b c d e f g r : Bytes)
    → (a ++ (b ++ (c ++ (d ++ (e ++ (f ++ g)))))) ++ r
      ≡ a ++ (b ++ (c ++ (d ++ (e ++ (f ++ (g ++ r))))))
append_seven a b c d e f g r = simp append_assoc

All-both {ℓ} :
    {A : Type ℓ} (P Q : A → Type 0) (xs : List A) → All P xs → All Q xs → All (λ x. P x × Q x) xs
All-both P Q [] ps qs = tt
All-both P Q (x ∷ xs) (p, ps) (q, qs) = ((p, q), All-both P Q xs ps qs)

enough_bytes :
    (os : List Bytes)
    → leb (2 ^ 32) (length os) ≡ false
    → All HasNoNul os
    → require_collection_bytes
        (length os)
        (length (encode_all cstr os ++ []))
        1
        "unsupported option count"
      ≡ ok tt
unfolding require_collection_bytes
enough_bytes os small all = ground (
  arith,
  length-append (encode_all cstr os) [],
  length-encode_all cstr HasNoNul 1 (λ v h. omega (arith, length-append v (0 ∷ []))) os all,
)

module _ ⦃w : Wire⦄ where
  -- The bytes of a field behind its name.
  abbrev field_tail : FieldDescription → Bytes
  field_tail f =
      w.put_u32 f.table_oid
      ++ (w.put_i16 f.column
          ++ (w.put_u32 f.type_oid
              ++ (w.put_i16 f.type_size ++ (w.put_i32 f.type_modifier ++ w.put_i16 f.format))))

  abbrev row_field : FieldDescription → Bytes
  row_field f = cstr f.name ++ field_tail f

  put_field-eq-ok :
      (f : FieldDescription) (body b : Bytes)
      → put_field f body ≡ ok b
      → HasNoNul f.name × (b ≡ body ++ row_field f)
  unfolding put_field
  put_field-eq-ok f body b h =
      let (b1, w1, h1) = >>=-eq-ok (put_cstr f.name body) _ h in
      let (hn, e1) = put_cstr-eq-ok f.name body w1 in
      let e : b ≡ b1 ++ field_tail f = cc h1 in
      (hn, e ∙ ap (λ t. t ++ field_tail f) e1 ∙ append_assoc body (cstr f.name) (field_tail f))

  take_field-row_field :
      (f : FieldDescription) (rest : Bytes)
      → HasNoNul f.name × FieldIsTyped f
      → take_field (row_field f ++ rest) ≡ ok (f, rest)
  unfolding take_field
  take_field-row_field f rest (hn, (to, tc, ty, ts, tm, tf)) =
      rw
        (append_seven (cstr f.name) (w.put_u32 f.table_oid) (w.put_i16 f.column)
          (w.put_u32 f.type_oid) (w.put_i16 f.type_size) (w.put_i32 f.type_modifier)
          (w.put_i16 f.format) rest)
        (rw (take_cstr-cstr f.name _ hn) (
          rw (take_u32-put_u32 f.table_oid _ to) (
            rw (take_i16-put_i16 f.column _ tc) (
              rw (take_u32-put_u32 f.type_oid _ ty) (
                rw (take_i16-put_i16 f.type_size _ ts) (
                  rw (take_i32-put_i32 f.type_modifier _ tm)
                    (rw (take_i16-put_i16 f.format rest tf) refl)))))))

  length-row_field :
      (f : FieldDescription) → HasNoNul f.name × FieldIsTyped f → 19 ≤ length (row_field f)
  length-row_field f (hn, (to, tc, ty, ts, tm, tf)) = omega (
    arith,
    length-append (cstr f.name) (field_tail f),
    length-append f.name (0 ∷ []),
    length-append (w.put_u32 f.table_oid) (
        w.put_i16 f.column
        ++ (w.put_u32 f.type_oid
            ++ (w.put_i16 f.type_size ++ (w.put_i32 f.type_modifier ++ w.put_i16 f.format)))),
    length-append (w.put_i16 f.column) (
        w.put_u32 f.type_oid
        ++ (w.put_i16 f.type_size ++ (w.put_i32 f.type_modifier ++ w.put_i16 f.format))),
    length-append (w.put_u32 f.type_oid)
        (w.put_i16 f.type_size ++ (w.put_i32 f.type_modifier ++ w.put_i16 f.format)),
    length-append (w.put_i16 f.type_size) (w.put_i32 f.type_modifier ++ w.put_i16 f.format),
    length-append (w.put_i32 f.type_modifier) (w.put_i16 f.format),
    length-put_u32 f.table_oid to,
    length-put_i16 f.column tc,
    length-put_u32 f.type_oid ty,
    length-put_i16 f.type_size ts,
    length-put_i32 f.type_modifier tm,
    length-put_i16 f.format tf,
  )

  pub row_description_round :
      (m : RowDescription) {f : Frame}
      → All FieldIsTyped m.fields
      → row_description_to_frame m ≡ ok f
      → (f.tag ≡ b'T') × (decode_row_description f.body ≡ ok m)
  unfolding row_description_to_frame decode_row_description require_empty
  row_description_round m t h =
      let (b1, w1, h1) = >>=-eq-ok (put_counted put_field m.fields []) _ h in
      let (short, named, e1) =
        put_counted-eq-ok put_field row_field (λ f. HasNoNul f.name) put_field-eq-ok m.fields []
          w1 in
      frame_of_parts decode_row_description m b'T' (start e1) h1 (
        rw
          (take_counted-counted "field count" 19 take_field row_field
            (λ f. HasNoNul f.name × FieldIsTyped f) (omega arith) take_field-row_field
            length-row_field m.fields [] short
            (All-both (λ (f : FieldDescription). HasNoNul f.name) FieldIsTyped m.fields named t))
          refl)

  version_bits :
      (major minor : ℕ)
      → IsU16 major
      → IsU16 minor
      → ((major * 2 ^ 16 + minor) / 2 ^ 16 ≡ major)
        × ((major * 2 ^ 16 + minor) % 2 ^ 16 ≡ minor)
        × IsU32 (major * 2 ^ 16 + minor)
  version_bits major minor h k = (omega arith, omega arith, omega arith)

  options_back :
      (m : NegotiateProtocolVersion)
      → leb (2 ^ 32) (length m.unsupported_options) ≡ false
      → All HasNoNul m.unsupported_options
      → (m.newest.major * 2 ^ 16 + m.newest.minor) / 2 ^ 16 ≡ m.newest.major
      → (m.newest.major * 2 ^ 16 + m.newest.minor) % 2 ^ 16 ≡ m.newest.minor
      → IsU32 (m.newest.major * 2 ^ 16 + m.newest.minor)
      → decode_negotiate_protocol_version (
          w.put_u32 (m.newest.major * 2 ^ 16 + m.newest.minor)
          ++ (w.put_u32 (length m.unsupported_options)
              ++ (encode_all cstr m.unsupported_options ++ [])))
        ≡ ok (BackendMessage.negotiate_protocol_version m)
  unfolding decode_negotiate_protocol_version require_empty
  options_back m small all high low typed =
      rw (take_u32-put_u32 (m.newest.major * 2 ^ 16 + m.newest.minor) _ typed) (
        rw (take_u32-put_u32 (length m.unsupported_options) _ (ground arith)) (
          rw (enough_bytes m.unsupported_options small all) (
            rw
              (take_many-encode_all take_cstr cstr HasNoNul take_cstr-cstr m.unsupported_options []
                all)
              (rw (high, low) refl))))

  pub negotiate_round :
      (m : NegotiateProtocolVersion) {f : Frame}
      → IsU16 m.newest.major × IsU16 m.newest.minor
      → negotiate_to_frame m ≡ ok f
      → (f.tag ≡ b'v')
        × (decode_negotiate_protocol_version f.body
            ≡ ok (BackendMessage.negotiate_protocol_version m))
  unfolding negotiate_to_frame decode_negotiate_protocol_version require_empty
  negotiate_round m t h = elim (Bool-cases (leb (2 ^ 32) (length m.unsupported_options))) [
    | inl large ↦ absurd (cc (rw (negotiate_to_frame, large) at h))
    | inr small ↦
        let (b1, w1, h1) = map_ok-eq-ok _ _ (rw (negotiate_to_frame, small) at h) in
        let version : ℕ = m.newest.major * 2 ^ 16 + m.newest.minor in
        let (all, e1) =
          put_each-eq-ok put_cstr cstr HasNoNul (λ v body b e. put_cstr-eq-ok v body e)
            m.unsupported_options (w.put_u32 version ++ w.put_u32 (length m.unsupported_options))
            w1 in
        let (high, low, typed) = version_bits m.newest.major m.newest.minor t.0 t.1 in
        frame_of_parts decode_negotiate_protocol_version
          (BackendMessage.negotiate_protocol_version m) b'v'
          (more (more (given (w.put_u32 version)) refl) e1) (ap ok h1)
          (options_back m small all high low typed)
  ]
