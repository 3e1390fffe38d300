-- ===== src/Codec/Backend/Named.antt =====
-- src/codec.rs: which SASL mechanisms a decoder reads.
use pg_proto.Base.{
  ℕ, zero, suc, ◌≡◌, ◌≢◌, List, [], ◌∷◌, arith, All, Bytes, ok, length, map_ok, map_ok-eq-ok, ap,
  sym, ◌∙◌, refl, >>=-eq-ok,
}
use pg_proto.Wire.{Wire}
use pg_proto.Codec.Primitives.{position_nul, take_cstr, take_u32, take_u8, require_empty}
use pg_proto.Codec.Frame.{Frame}
use pg_proto.Codec.Simple.{frame}
use pg_proto.Codec.Backend.Authentications.{IsNamed}
use pg_proto.Codec.Backend.Encode.{authentication_body, authentication_frame, to_frame}
use pg_proto.Codec.Backend.Decode.{decode_late, decode_tagged, decode}
use pg_proto.Codec.Backend.Messages.{BackendMessage, Authentication, authentication_ok, sasl}
use pg_proto.Codec.Backend.Bodies.{
  take_mechanisms, take_sasl, take_authentication, decode_authentication,
}

-- No SASL mechanism that the message offers has an empty name.
abbrev pub NamesMechanisms : BackendMessage → Type 0
NamesMechanisms (BackendMessage.authentication a) = IsNamed a
NamesMechanisms _ = Unit {0}

take_cstr-ne-nil :
    (b : ℕ) (x : Bytes) {m rest : Bytes} → take_cstr (suc b ∷ x) ≡ ok (m, rest) → m ≢ []
unfolding take_cstr position_nul
take_cstr-ne-nil b x h e = ground arith

take_mechanisms-All :
    (fuel : ℕ) (x : Bytes) {ms : List Bytes} {rest : Bytes}
    → take_mechanisms fuel x ≡ ok (ms, rest)
    → All (λ m. m ≢ []) ms
unfolding take_mechanisms
take_mechanisms-All zero x h = absurd (cc h)
take_mechanisms-All (suc fuel) [] {ms} h = let none_read : ms ≡ [] = cc h in rw none_read tt
take_mechanisms-All (suc fuel) (zero ∷ x) {ms} h = let none_read : ms ≡ [] = cc h in rw none_read tt
take_mechanisms-All (suc fuel) (suc b ∷ x) {ms} h =
    let ((m, x1), taken, h1) = >>=-eq-ok (take_cstr (suc b ∷ x)) _ h in
    let ((later, x2), more, h2) = >>=-eq-ok (take_mechanisms fuel x1) _ h1 in
    let read : ms ≡ m ∷ later = cc h2 in
    rw read (take_cstr-ne-nil b x taken, take_mechanisms-All fuel x1 more)

module _ ⦃w : Wire⦄ where
  take_sasl-All :
      (x : Bytes) {ms : List Bytes} {rest : Bytes}
      → take_sasl x ≡ ok (sasl ms, rest)
      → All (λ m. m ≢ []) ms
  unfolding take_sasl
  take_sasl-All x {ms} h =
      let ((read, x1), taken, h1) = >>=-eq-ok (take_mechanisms (suc (length x)) x) _ h in
      let ((terminator, x2), ended, h2) = >>=-eq-ok (take_u8 x1) _ h1 in
      let same : ms ≡ read = cc h2 in rw same (take_mechanisms-All (suc (length x)) x taken)

  take_authentication-take_sasl :
      (kind : ℕ) (x : Bytes) {ms : List Bytes} {rest : Bytes}
      → take_authentication kind x ≡ ok (sasl ms, rest)
      → take_sasl x ≡ ok (sasl ms, rest)
  unfolding take_authentication
  take_authentication-take_sasl kind x h = ground arith

  -- The mechanisms of a SASL request that was decoded are not empty.
  pub decode_authentication-All :
      (x : Bytes) {ms : List Bytes} → decode_authentication x ≡ ok (sasl ms) → All (λ m. m ≢ []) ms
  unfolding decode_authentication
  decode_authentication-All x {ms} h =
      let ((kind, x1), taken, h1) = >>=-eq-ok (take_u32 x) _ h in
      let ((a, x2), read, h2) = >>=-eq-ok (take_authentication kind x1) _ h1 in
      let (u, ended, h3) = >>=-eq-ok (require_empty x2) _ h2 in
      let is_sasl : take_authentication kind x1 ≡ ok (sasl ms, x2) = cc (read, h3) in
      take_sasl-All x1 (take_authentication-take_sasl kind x1 is_sasl)

  decode-authentication :
      (f : Frame)
      → f.tag ≡ b'R'
      → decode f ≡ map_ok BackendMessage.authentication (decode_authentication f.body)
  unfolding decode decode_tagged decode_late
  decode-authentication f at = rw (decode, at) refl

  authentication_frame-tag :
      (a : Authentication) {f : Frame} → authentication_frame a ≡ ok f → f.tag ≡ b'R'
  unfolding authentication_frame
  authentication_frame-tag a {f} h =
      let (body, built, h1) = >>=-eq-ok (authentication_body a) _ h in
      let same : frame b'R' body ≡ f = cc h1 in ap (λ (g : Frame). g.tag) (sym same)

  decode_authentication-IsNamed :
      (a b : Authentication) (x : Bytes)
      → decode_authentication x ≡ ok b
      → BackendMessage.authentication b ≡ BackendMessage.authentication a
      → IsNamed a
  decode_authentication-IsNamed (sasl ms) b x read same =
      let is_sasl : b ≡ sasl ms = cc same in decode_authentication-All x (rw is_sasl at read)
  decode_authentication-IsNamed authentication_ok b x read same = tt
  decode_authentication-IsNamed _ b x read same = tt

  -- A message that is decoded from the frame that `to_frame` builds of it names its mechanisms.
  pub decode-NamesMechanisms :
      (m : BackendMessage) {f : Frame} → to_frame m ≡ ok f → decode f ≡ ok m → NamesMechanisms m
  unfolding to_frame
  decode-NamesMechanisms (BackendMessage.authentication a) {f} framed decoded =
      let (b, read, same) =
        map_ok-eq-ok (decode_authentication f.body) BackendMessage.authentication
          (sym (decode-authentication f (authentication_frame-tag a framed)) ∙ decoded) in
      decode_authentication-IsNamed a b f.body read same
  decode-NamesMechanisms _ framed decoded = tt
