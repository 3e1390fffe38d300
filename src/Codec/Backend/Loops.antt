-- ===== src/Codec/Backend/Loops.antt =====
-- src/codec.rs, the two loops over a body that have no count: they read back what the writers
-- appended, and the fuel of the model never ends them.
use pg_proto.Base.{
  ℕ, zero, suc, ◌<◌, ◌≡◌, ◌≢◌, refl, ◌∙◌, List, [], ◌∷◌, ◌++◌, arith, length, drop, All,
  append_assoc, Bytes, ok, ◌>>=◌, some, Option-cases, inl, inr, length-drop, Result-cases,
}
use pg_proto.Codec.Primitives.{position_nul, take_cstr, contains_nul}
use pg_proto.Codec.Primitives.Inverse.{HasNoNul, cstr, take_cstr-cstr, put_cstr-eq-ok, encode_all}
use pg_proto.Codec.Backend.Messages.{DiagnosticField}
use pg_proto.Codec.Backend.Encode.{put_diagnostic_field}
use pg_proto.Codec.Backend.Bodies.{take_mechanisms, take_diagnostic_fields}

-- A field that `put_diagnostic_field` takes, and its bytes.
abbrev pub IsField : DiagnosticField → Type 0
IsField f = (f.code ≢ 0) × HasNoNul f.value

abbrev pub field_bytes : DiagnosticField → Bytes
field_bytes f = f.code ∷ cstr f.value

pub put_diagnostic_field-eq-ok :
    (f : DiagnosticField) (body b : Bytes)
    → put_diagnostic_field f body ≡ ok b
    → IsField f × (b ≡ body ++ field_bytes f)
unfolding put_diagnostic_field
put_diagnostic_field-eq-ok f body b h = ground (
  arith,
  put_cstr-eq-ok f.value (body ++ f.code ∷ []) {b = b},
  append_assoc body (f.code ∷ []) (cstr f.value),
)

take_field_step :
    (fuel code : ℕ) (v rest : Bytes)
    → code ≢ 0
    → HasNoNul v
    → take_diagnostic_fields (suc fuel) (code ∷ (cstr v ++ rest)) ≡ (
        take_diagnostic_fields fuel rest >>= λ p. ok (record { code = code; value = v } ∷ p.0, p.1))
unfolding take_diagnostic_fields
take_field_step fuel zero v rest h hv = absurd (h refl)
take_field_step fuel (suc code) v rest h hv = rw (take_cstr-cstr v rest hv) refl

pub take_diagnostic_fields-fields :
    (fuel : ℕ) (fs : List DiagnosticField) (rest : Bytes)
    → length fs < fuel
    → All IsField fs
    → take_diagnostic_fields fuel (encode_all field_bytes fs ++ (0 ∷ rest)) ≡ ok (fs, rest)
unfolding take_diagnostic_fields
take_diagnostic_fields-fields zero fs rest h all = absurd (omega arith)
take_diagnostic_fields-fields (suc fuel) [] rest h all = refl
take_diagnostic_fields-fields (suc fuel) (f ∷ fs) rest h ((hc, hv), all) =
    rw (append_assoc (cstr f.value) (encode_all field_bytes fs) (0 ∷ rest)) (
      take_field_step fuel f.code f.value (encode_all field_bytes fs ++ (0 ∷ rest)) hc hv
      ∙ rw (take_diagnostic_fields-fields fuel fs rest (omega arith) all) refl)

-- A mechanism that the reader tells from the terminator.
abbrev pub IsMechanism : Bytes → Type 0
IsMechanism m = HasNoNul m × (m ≢ [])

take_mechanism_step :
    (fuel : ℕ) (m rest : Bytes)
    → HasNoNul m
    → m ≢ []
    → take_mechanisms (suc fuel) (cstr m ++ rest)
      ≡ (take_mechanisms fuel rest >>= λ p. ok (m ∷ p.0, p.1))
unfolding take_mechanisms contains_nul
take_mechanism_step fuel [] rest h ne = absurd (ne refl)
take_mechanism_step fuel (zero ∷ m) rest h ne = absurd (cc h)
take_mechanism_step fuel (suc b ∷ m) rest h ne = rw (take_cstr-cstr (suc b ∷ m) rest h) refl

pub take_mechanisms-mechanisms :
    (fuel : ℕ) (ms : List Bytes) (rest : Bytes)
    → length ms < fuel
    → All IsMechanism ms
    → take_mechanisms fuel (encode_all cstr ms ++ (0 ∷ rest)) ≡ ok (ms, 0 ∷ rest)
unfolding take_mechanisms
take_mechanisms-mechanisms zero ms rest h all = absurd (omega arith)
take_mechanisms-mechanisms (suc fuel) [] rest h all = refl
take_mechanisms-mechanisms (suc fuel) (m ∷ ms) rest h ((hm, ne), all) =
    rw (append_assoc (cstr m) (encode_all cstr ms) (0 ∷ rest)) (
      take_mechanism_step fuel m (encode_all cstr ms ++ (0 ∷ rest)) hm ne
      ∙ rw (take_mechanisms-mechanisms fuel ms rest (omega arith) all) refl)

-- A string takes at least its terminator.
position_nul-lt : (b : Bytes) {n : ℕ} → position_nul b ≡ some n → n < length b
unfolding position_nul
position_nul-lt [] h = cc
position_nul-lt (x ∷ b) h = elim (Option-cases (position_nul b)) [
  | inl e ↦ ground arith
  | inr (n, e) ↦ ground (arith, position_nul-lt b e)
]

take_cstr-shrinks :
    (b : Bytes) {v rest : Bytes} → take_cstr b ≡ ok (v, rest) → length rest < length b
unfolding take_cstr
take_cstr-shrinks b {v} {rest} h = elim (Option-cases (position_nul b)) [
  | inl e ↦ absurd (cc (rw (take_cstr, e) at h))
  | inr (n, e) ↦
      let left : rest ≡ drop 1 (drop n b) = cc (rw (take_cstr, e) at h) in
      rw left (omega (arith, position_nul-lt b e, length-drop n b, length-drop 1 (drop n b)))
]

-- With more fuel than bytes, how much more makes no difference to the fields of a diagnostic: each
-- round takes a byte.
pub take_diagnostic_fields_fuel :
    (fuel fuel' : ℕ) (body : Bytes)
    → length body < fuel
    → length body < fuel'
    → take_diagnostic_fields fuel body ≡ take_diagnostic_fields fuel' body
unfolding take_diagnostic_fields
take_diagnostic_fields_fuel zero fuel' body h h' = absurd (omega arith)
take_diagnostic_fields_fuel (suc fuel) zero body h h' = absurd (omega arith)
take_diagnostic_fields_fuel (suc fuel) (suc fuel') [] h h' = refl
take_diagnostic_fields_fuel (suc fuel) (suc fuel') (zero ∷ rest) h h' = refl
take_diagnostic_fields_fuel (suc fuel) (suc fuel') (suc code ∷ rest) h h' =
    elim (Result-cases (take_cstr rest)) [
      | inr (e, failed) ↦ rw failed refl
      | inl ((v, left), taken) ↦ rw taken (
          rw
            (take_diagnostic_fields_fuel fuel fuel' left
              (omega (arith, take_cstr-shrinks rest taken))
              (omega (arith, take_cstr-shrinks rest taken)))
            refl)
    ]

-- The same of the loop over the mechanisms of a SASL request.
pub take_mechanisms_fuel :
    (fuel fuel' : ℕ) (body : Bytes)
    → length body < fuel
    → length body < fuel'
    → take_mechanisms fuel body ≡ take_mechanisms fuel' body
unfolding take_mechanisms
take_mechanisms_fuel zero fuel' body h h' = absurd (omega arith)
take_mechanisms_fuel (suc fuel) zero body h h' = absurd (omega arith)
take_mechanisms_fuel (suc fuel) (suc fuel') [] h h' = refl
take_mechanisms_fuel (suc fuel) (suc fuel') (zero ∷ rest) h h' = refl
take_mechanisms_fuel (suc fuel) (suc fuel') (suc b ∷ rest) h h' =
    elim (Result-cases (take_cstr (suc b ∷ rest))) [
      | inr (e, failed) ↦ rw failed refl
      | inl ((v, left), taken) ↦ rw taken (
          rw
            (take_mechanisms_fuel fuel fuel' left
              (omega (arith, take_cstr-shrinks (suc b ∷ rest) taken))
              (omega (arith, take_cstr-shrinks (suc b ∷ rest) taken)))
            refl)
    ]

-- With more fuel than bytes, how much more makes no difference to the loop over the fields of a
-- diagnostic, nor to the loop over the mechanisms of a SASL request: the fuel never ends them.
pub take_loops_fuel :
    (fuel fuel' : ℕ) (body : Bytes)
    → length body < fuel
    → length body < fuel'
    → (take_diagnostic_fields fuel body ≡ take_diagnostic_fields fuel' body)
      × (take_mechanisms fuel body ≡ take_mechanisms fuel' body)
take_loops_fuel fuel fuel' body h h' =
    (take_diagnostic_fields_fuel fuel fuel' body h h', take_mechanisms_fuel fuel fuel' body h h')
