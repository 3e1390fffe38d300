-- ===== src/Pipeline/Sequences/Steps.antt =====
-- src/pipeline.rs: what the first message does to a sequence of frontend messages.
use pg_proto.Base.{true, false, List, [], ◌∷◌, ◌++◌, ◌≡◌, refl, ◌⊎◌, inl, inr, All, Bool-cases}
use pg_proto.Wire.{Wire}
use pg_proto.Codec.Frontend.{FrontendMessage}
use pg_proto.Pipeline.Types.{
  Pipeline, state, Outcome, done, rejected, panicked, FrontendHandling, FrontendAdmission,
  FrontendProjectionError, illegal, FrontendSequenceItem,
}
use pg_proto.Pipeline.Frontend.{
  accept_frontend, prepare_frontend_sequence, frontend_transition_id, is_reconstructable,
  FrontendOutcome,
}

abbrev pub item_of : Pipeline → FrontendMessage → FrontendAdmission → FrontendSequenceItem
item_of p m a = record { transition_id = frontend_transition_id p m; admission = a }

-- The ledger `p` admits the messages one by one, each on the ledger that those before it have left;
-- `q` is what it is then, and the items say how each was admitted and from which request state.
abbrev pub Admits :
    FrontendHandling
    → Pipeline
    → List FrontendMessage
    → Pipeline
    → List FrontendSequenceItem
    → Type 0
Admits handling p [] q items = (p ≡ q) × (items ≡ [])
Admits handling p (m ∷ ms) q items =
    (a : FrontendAdmission) × (rest : List FrontendSequenceItem) × ((accept_frontend p m handling).1
      ≡ done a)
    × (items ≡ item_of p m a ∷ rest)
    × Admits handling (accept_frontend p m handling).0 ms q rest

abbrev pub Sequence : Type 0
Sequence = Outcome FrontendProjectionError (Pipeline × List FrontendSequenceItem)

abbrev pub behind : FrontendSequenceItem → Sequence → Sequence
behind i (rejected e) = rejected e
behind i panicked = panicked
behind i (done (q, items)) = done (q, i ∷ items)

pub behind-done :
    (i : FrontendSequenceItem) (r : Sequence) {q : Pipeline} {items : List FrontendSequenceItem}
    → behind i r ≡ done (q, items)
    → (rest : List FrontendSequenceItem) × (r ≡ done (q, rest)) × (items ≡ i ∷ rest)
behind-done i (rejected e) h = absurd (cc h)
behind-done i panicked h = absurd (cc h)
behind-done i (done (q, rest)) h = (rest, cc h, cc h)

pub behind-rejected :
    (i : FrontendSequenceItem) (r : Sequence) {e : FrontendProjectionError}
    → behind i r ≡ rejected e
    → r ≡ rejected e
behind-rejected i (rejected e) h = h
behind-rejected i panicked h = absurd (cc h)
behind-rejected i (done (q, rest)) h = absurd (cc h)

module _ ⦃w : Wire⦄ where
  abbrev pub AllReconstructable : List FrontendMessage → Type 0
  AllReconstructable ms = All (λ m. is_reconstructable m ≡ true) ms

  -- The ledger `q` does not admit the message, or it cannot be encoded.
  abbrev pub Refuses :
      FrontendHandling → Pipeline → FrontendMessage → FrontendProjectionError → Type 0
  Refuses handling q m e =
      ((is_reconstructable m ≡ false) × (e ≡ illegal (state q) m))
      ⊎ ((is_reconstructable m ≡ true) × ((accept_frontend q m handling).1 ≡ rejected e))

  -- A message in the sequence is refused on the ledger that the messages before it, all of them
  -- admitted, have left.
  abbrev pub FirstRefused :
      FrontendHandling → Pipeline → List FrontendMessage → FrontendProjectionError → Type 0
  FirstRefused handling p ms e =
      (before : List FrontendMessage) × (m : FrontendMessage) × (later : List FrontendMessage)
      × (q : Pipeline) × (items : List FrontendSequenceItem) × (ms ≡ before ++ (m ∷ later))
      × AllReconstructable before
      × Admits handling p before q items
      × Refuses handling q m e

  module _ (handling : FrontendHandling) where
    pub admitted_step :
        (p : Pipeline) (m : FrontendMessage) (ms : List FrontendMessage) (a : FrontendAdmission)
        → is_reconstructable m ≡ true
        → (accept_frontend p m handling).1 ≡ done a
        → prepare_frontend_sequence p (m ∷ ms) handling
          ≡ behind
              (item_of p m a)
              (prepare_frontend_sequence (accept_frontend p m handling).0 ms handling)
    unfolding prepare_frontend_sequence
    admitted_step p m ms a t e =
        on_rest (prepare_frontend_sequence (accept_frontend p m handling).0 ms handling) refl
      where
        on_rest :
            (r : Sequence)
            → prepare_frontend_sequence (accept_frontend p m handling).0 ms handling ≡ r
            → prepare_frontend_sequence p (m ∷ ms) handling
              ≡ behind
                  (item_of p m a)
                  (prepare_frontend_sequence (accept_frontend p m handling).0 ms handling)
        on_rest (rejected x) f = rw (prepare_frontend_sequence, t, e, f) refl
        on_rest panicked f = rw (prepare_frontend_sequence, t, e, f) refl
        on_rest (done (q, rest)) f = rw (prepare_frontend_sequence, t, e, f) refl

    pub refused_step :
        (p : Pipeline) (m : FrontendMessage) (ms : List FrontendMessage)
        {e : FrontendProjectionError}
        → Refuses handling p m e
        → prepare_frontend_sequence p (m ∷ ms) handling ≡ rejected e
    unfolding prepare_frontend_sequence
    refused_step p m ms (inl (t, e)) = rw (prepare_frontend_sequence, t, e) refl
    refused_step p m ms (inr (t, e)) = rw (prepare_frontend_sequence, t, e) refl

    pub panicked_step :
        (p : Pipeline) (m : FrontendMessage) (ms : List FrontendMessage)
        → is_reconstructable m ≡ true
        → (accept_frontend p m handling).1 ≡ panicked
        → prepare_frontend_sequence p (m ∷ ms) handling ≡ panicked
    unfolding prepare_frontend_sequence
    panicked_step p m ms t e = rw (prepare_frontend_sequence, t, e) refl

    -- The first message of a sequence is admitted, refused, or makes the code panic.
    abbrev pub FirstStep : Pipeline → FrontendMessage → Type 0
    FirstStep p m =
        ((is_reconstructable m ≡ true)
          × ((a : FrontendAdmission) × ((accept_frontend p m handling).1 ≡ done a)))
        ⊎ ((e : FrontendProjectionError) × Refuses handling p m e)
        ⊎ ((is_reconstructable m ≡ true) × ((accept_frontend p m handling).1 ≡ panicked))

    pub first_step : (p : Pipeline) (m : FrontendMessage) → FirstStep p m
    first_step p m = elim (Bool-cases (is_reconstructable m)) [
      | inr t ↦ inr (inl (illegal (state p) m, inl (t, refl)))
      | inl t ↦ on_outcome t (accept_frontend p m handling).1 refl
    ]
      where
        on_outcome :
            is_reconstructable m ≡ true
            → (r : FrontendOutcome) → (accept_frontend p m handling).1 ≡ r
            → FirstStep p m
        on_outcome t (done a) e = inl (t, (a, e))
        on_outcome t (rejected x) e = inr (inl (x, inr (t, e)))
        on_outcome t panicked e = inr (inr (t, e))
