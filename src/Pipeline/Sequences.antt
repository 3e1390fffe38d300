-- ===== src/Pipeline/Sequences.antt =====
-- src/pipeline.rs: when a sequence of frontend messages is accepted, and what it is rejected with.
pub mod Steps
use pg_proto.Base.{List, [], ◌∷◌, ◌++◌, ◌≡◌, refl, sym, ap, ◌∙◌, ◌↔◌, inl, inr, All}
use mathlib.Core.Path.{subst}
use pg_proto.Wire.{Wire}
use pg_proto.Codec.Frontend.{FrontendMessage}
use pg_proto.Pipeline.Types.{
  Pipeline, done, rejected, panicked, FrontendHandling, FrontendProjectionError,
  FrontendSequenceItem,
}
use pg_proto.Pipeline.Frontend.{accept_frontend, prepare_frontend_sequence}
use pg_proto.Pipeline.Sequences.Steps.{
  item_of, Admits, behind, behind-done, behind-rejected, AllReconstructable, Refuses, FirstRefused,
  admitted_step, refused_step, panicked_step, first_step,
}

module _ ⦃w : Wire⦄ where
  module _ (handling : FrontendHandling) where
    done-Admits :
        (p : Pipeline) (ms : List FrontendMessage) {q : Pipeline}
        {items : List FrontendSequenceItem}
        → prepare_frontend_sequence p ms handling ≡ done (q, items)
        → AllReconstructable ms × Admits handling p ms q items
    unfolding prepare_frontend_sequence
    done-Admits p [] h = (tt, (cc h, cc h))
    done-Admits p (m ∷ ms) h = elim (first_step handling p m) [
      | inl (t, (a, e)) ↦
          let (rest, f, is_items) =
            behind-done (item_of p m a)
              (prepare_frontend_sequence (accept_frontend p m handling).0 ms handling)
              (sym (admitted_step handling p m ms a t e) ∙ h) in
          let (all, admits) = done-Admits (accept_frontend p m handling).0 ms f in
          ((t, all), (a, rest, e, is_items, admits))
      | inr (inl (x, refuses)) ↦ absurd (cc (refused_step handling p m ms refuses, h))
      | inr (inr (t, e)) ↦ absurd (cc (panicked_step handling p m ms t e, h))
    ]

    Admits-done :
        (p : Pipeline) (ms : List FrontendMessage) {q : Pipeline}
        {items : List FrontendSequenceItem}
        → AllReconstructable ms
        → Admits handling p ms q items
        → prepare_frontend_sequence p ms handling ≡ done (q, items)
    unfolding prepare_frontend_sequence
    Admits-done p [] all (e, f) = cc
    Admits-done p (m ∷ ms) (t, all) (a, rest, e, is_items, admits) =
        admitted_step handling p m ms a t e
        ∙ ap (behind (item_of p m a)) (Admits-done (accept_frontend p m handling).0 ms all admits)
        ∙ cc is_items

    rejected-FirstRefused :
        (p : Pipeline) (ms : List FrontendMessage) {e : FrontendProjectionError}
        → prepare_frontend_sequence p ms handling ≡ rejected e
        → FirstRefused handling p ms e
    unfolding prepare_frontend_sequence
    rejected-FirstRefused p [] h = absurd (cc h)
    rejected-FirstRefused p (m ∷ ms) {e} h = elim (first_step handling p m) [
      | inl (t, (a, admitted)) ↦
          let (before, n, later, q, items, split, all, admits, refuses) =
            rejected-FirstRefused (accept_frontend p m handling).0 ms (
              behind-rejected (item_of p m a)
                (prepare_frontend_sequence (accept_frontend p m handling).0 ms handling)
                (sym (admitted_step handling p m ms a t admitted) ∙ h)) in
          (
            m ∷ before,
            n,
            later,
            q,
            item_of p m a ∷ items,
            ap (λ l. m ∷ l) split,
            (t, all),
            (a, items, admitted, refl, admits),
            refuses,
          )
      | inr (inl (x, refuses)) ↦
          let same : x ≡ e = cc (refused_step handling p m ms refuses, h) in
          ([], m, ms, p, [], refl, tt, (refl, refl), subst (Refuses handling p m) same refuses)
      | inr (inr (t, failed)) ↦ absurd (cc (panicked_step handling p m ms t failed, h))
    ]

    FirstRefused-rejected :
        (p : Pipeline) (before : List FrontendMessage) (m : FrontendMessage)
        (later : List FrontendMessage) (q : Pipeline) (items : List FrontendSequenceItem)
        {e : FrontendProjectionError}
        → AllReconstructable before
        → Admits handling p before q items
        → Refuses handling q m e
        → prepare_frontend_sequence p (before ++ (m ∷ later)) handling ≡ rejected e
    FirstRefused-rejected p [] m later q items {e} all (same, no_items) refuses =
        refused_step handling p m later (subst (λ r. Refuses handling r m e) (sym same) refuses)
    FirstRefused-rejected p (b ∷ before) m later q items (t, all) (a, rest, f, is_items, admits)
          refuses =
        admitted_step handling p b (before ++ (m ∷ later)) a t f
        ∙ ap (behind (item_of p b a)) (
            FirstRefused-rejected (accept_frontend p b handling).0 before m later q rest all admits
              refuses)

  -- A sequence is accepted, with the ledger `q` and the items, exactly when each of its messages can
  -- be encoded and the ledger admits them one by one, ending in `q` and with these items. It is
  -- rejected with an error exactly when the error is that of a message in it that cannot be encoded
  -- or that is not admitted, on the ledger that the messages before it, which can be encoded and are
  -- admitted, have left.
  pub prepare_frontend_sequence_iff :
      (p : Pipeline) (ms : List FrontendMessage) (handling : FrontendHandling) (q : Pipeline)
      (items : List FrontendSequenceItem) (e : FrontendProjectionError)
      → ((prepare_frontend_sequence p ms handling ≡ done (q, items))
          ↔ (AllReconstructable ms × Admits handling p ms q items))
        × ((prepare_frontend_sequence p ms handling ≡ rejected e) ↔ FirstRefused handling p ms e)
  prepare_frontend_sequence_iff p ms handling q items e = (
    (done-Admits handling p ms, (λ (all, admits). Admits-done handling p ms all admits)),
    (
      rejected-FirstRefused handling p ms,
      (λ (before, m, later, q', items', split, all, admits, refuses).
          rw split (FirstRefused-rejected handling p before m later q' items' all admits refuses)),
    ),
  )
