-- ===== src/Codec/Backend/Authentications.antt =====
-- src/codec.rs: `decode_authentication` inverts `authentication_frame`.
use pg_proto.Base.{
  ℕ, suc, ◌≡◌, ◌≢◌, refl, sym, ap, List, [], ◌∷◌, ◌++◌, arith, length, All, length-append, Bytes,
  IsU32, ok, >>=-eq-ok,
}
use pg_proto.Wire.{Wire}
use pg_proto.Codec.Primitives.{require_empty, put_cstr, take_u8, put_each}
use pg_proto.Codec.Primitives.Inverse.{
  HasNoNul, cstr, put_cstr-eq-ok, encode_all, length-encode_all, put_each-eq-ok, take_u32-put_u32,
}
use pg_proto.Codec.Frame.{Frame}
use pg_proto.Codec.Simple.{frame}
use pg_proto.Codec.Parts.{given, more, frame_of_parts}
use pg_proto.Codec.Backend.Messages.{
  Authentication, authentication_ok, kerberos_v5, cleartext_password, md5_password, gss,
  gss_continue, sspi, sasl, sasl_continue, sasl_final,
}
use pg_proto.Codec.Backend.Encode.{authentication_body, authentication_frame}
use pg_proto.Codec.Backend.Bodies.{take_salt, take_sasl, take_authentication, decode_authentication}
use pg_proto.Codec.Backend.Loops.{IsMechanism, take_mechanisms-mechanisms}

-- The names of a SASL request are not empty: an empty name is the terminator of the list.
abbrev pub IsNamed : Authentication → Type 0
IsNamed (sasl mechanisms) = All (λ m. m ≢ []) mechanisms
IsNamed _ = Unit {0}

IsMechanism-All : (ms : List Bytes) → All HasNoNul ms → All (λ m. m ≢ []) ms → All IsMechanism ms
IsMechanism-All [] hs ns = tt
IsMechanism-All (m ∷ ms) (h, hs) (n, ns) = ((h, n), IsMechanism-All ms hs ns)

module _ ⦃w : Wire⦄ where
  take_sasl-mechanisms :
      (ms : List Bytes)
      → All IsMechanism ms
      → take_sasl (encode_all cstr ms ++ (0 ∷ [])) ≡ ok (sasl ms, [])
  unfolding take_sasl take_u8
  take_sasl-mechanisms ms all =
      rw
        (take_mechanisms-mechanisms (suc (length (encode_all cstr ms ++ 0 ∷ []))) ms []
          (omega (
            arith,
            length-append (encode_all cstr ms) (0 ∷ []),
            length-encode_all cstr IsMechanism 1 (λ m h. omega (arith, length-append m (0 ∷ []))) ms
                all,
          ))
          all)
        refl

  -- A body of a kind and what `take_authentication` reads completely.
  kind_round :
      (a : Authentication) (kind : ℕ) (x : Bytes)
      → IsU32 kind
      → take_authentication kind x ≡ ok (a, [])
      → decode_authentication (w.put_u32 kind ++ x) ≡ ok a
  unfolding decode_authentication require_empty
  kind_round a kind x h t = rw (take_u32-put_u32 kind x h) (rw t refl)

  plain_round :
      (a : Authentication) (kind : ℕ) {f : Frame}
      → IsU32 kind
      → authentication_body a ≡ ok (w.put_u32 kind)
      → take_authentication kind [] ≡ ok (a, [])
      → authentication_frame a ≡ ok f
      → (f.tag ≡ b'R') × (decode_authentication f.body ≡ ok a)
  unfolding authentication_frame
  plain_round a kind h e t framed =
      frame_of_parts decode_authentication a b'R' (given (w.put_u32 kind)) (rw e at framed)
        (kind_round a kind [] h t)

  behind_round :
      (a : Authentication) (kind : ℕ) (x : Bytes) {f : Frame}
      → IsU32 kind
      → authentication_body a ≡ ok (w.put_u32 kind ++ x)
      → take_authentication kind x ≡ ok (a, [])
      → authentication_frame a ≡ ok f
      → (f.tag ≡ b'R') × (decode_authentication f.body ≡ ok a)
  unfolding authentication_frame
  behind_round a kind x {f} h e t framed =
      let body : frame b'R' (w.put_u32 kind ++ x) ≡ f = cc (rw e at framed) in
      (ap (λ (g : Frame). g.tag) (sym body), rw (← body) (kind_round a kind x h t))

  sasl_round :
      (ms : List Bytes) {f : Frame}
      → All (λ m. m ≢ []) ms
      → authentication_frame (sasl ms) ≡ ok f
      → (f.tag ≡ b'R') × (decode_authentication f.body ≡ ok (sasl ms))
  unfolding authentication_frame authentication_body take_authentication
  sasl_round ms named h =
      let (b0, w0, h0) = >>=-eq-ok (authentication_body (sasl ms)) _ h in
      let (b1, w1, h1) = >>=-eq-ok (put_each put_cstr ms (w.put_u32 10)) _ w0 in
      let (all, e1) =
        put_each-eq-ok put_cstr cstr HasNoNul (λ v body b e. put_cstr-eq-ok v body e) ms
          (w.put_u32 10) w1 in
      frame_of_parts decode_authentication (sasl ms) b'R'
        (more {x = 0 ∷ []} (more (given (w.put_u32 10)) e1) (cc h1)) h0
        (kind_round (sasl ms) 10 (encode_all cstr ms ++ (0 ∷ [])) (omega arith)
          (take_sasl-mechanisms ms (IsMechanism-All ms all named)))

  pub authentication_round :
      (a : Authentication) {f : Frame}
      → IsNamed a
      → authentication_frame a ≡ ok f
      → (f.tag ≡ b'R') × (decode_authentication f.body ≡ ok a)
  unfolding authentication_body take_authentication take_salt
  authentication_round authentication_ok n h =
      plain_round authentication_ok 0 (omega arith) refl refl h
  authentication_round kerberos_v5 n h = plain_round kerberos_v5 2 (omega arith) refl refl h
  authentication_round cleartext_password n h =
      plain_round cleartext_password 3 (omega arith) refl refl h
  authentication_round (md5_password a b c d) n h =
      behind_round (md5_password a b c d) 5 (a ∷ b ∷ c ∷ d ∷ []) (omega arith) refl refl h
  authentication_round gss n h = plain_round gss 7 (omega arith) refl refl h
  authentication_round (gss_continue token) n h =
      behind_round (gss_continue token) 8 token (omega arith) refl refl h
  authentication_round sspi n h = plain_round sspi 9 (omega arith) refl refl h
  authentication_round (sasl ms) n h = sasl_round ms n h
  authentication_round (sasl_continue challenge) n h =
      behind_round (sasl_continue challenge) 11 challenge (omega arith) refl refl h
  authentication_round (sasl_final final) n h =
      behind_round (sasl_final final) 12 final (omega arith) refl refl h
