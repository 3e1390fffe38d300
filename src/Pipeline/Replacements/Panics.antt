-- ===== src/Pipeline/Replacements/Panics.antt =====
-- src/pipeline.rs: on a valid ledger a batch is judged without a panic.
use pg_proto.Base.{◌≡◌, ◌≢◌, refl, true, List, [], ◌∷◌, ◌==◌, length, Bool-cases, inl, inr}
use pg_proto.Wire.{Wire}
use pg_proto.Codec.Backend.{BackendMessage}
use pg_proto.Pipeline.Types.{
  Pipeline, Outcome, done, rejected, panicked, BackendAction, BackendSequenceError,
}
use pg_proto.Pipeline.Backend.{accept_backend, BackendOutcome}
use pg_proto.Pipeline.Invariant.{IsValid}
use pg_proto.Pipeline.Invariant.Responses.{accept_backend-IsValid}
use mathlib.Core.Logic.{ite}
use pg_proto.Pipeline.Replacements.{
  project_sources, is_backend_reconstructable, project_replacements, same_span, span, Span-discrete,
  prepare_backend_replacements,
}

project_sources-ne-panicked :
    (p : Pipeline) (ms : List BackendMessage) → IsValid p → project_sources p ms ≢ panicked
unfolding project_sources
project_sources-ne-panicked p [] v h = cc h
project_sources-ne-panicked p (m ∷ ms) v h =
    let (valid, ne) = accept_backend-IsValid p m v in
    on_outcome (accept_backend p m).1 refl ne
      (project_sources-ne-panicked (accept_backend p m).0 ms valid)
  where
    on_outcome :
        (r : BackendOutcome)
        → (accept_backend p m).1 ≡ r
        → (accept_backend p m).1 ≢ panicked
        → project_sources (accept_backend p m).0 ms ≢ panicked
        → ⊥
    on_outcome (done (BackendAction.emit x)) e ne later = later (rw (project_sources, e) at h)
    on_outcome (done (BackendAction.deferred x)) e ne later = cc (rw (project_sources, e) at h)
    on_outcome (rejected x) e ne later = cc (rw (project_sources, e) at h)
    on_outcome panicked e ne later = ne e

module _ ⦃w : Wire⦄ where
  project_replacements-ne-panicked :
      (p : Pipeline) (ms : List BackendMessage) → IsValid p → project_replacements p ms ≢ panicked
  unfolding project_replacements
  project_replacements-ne-panicked p [] v h = cc h
  project_replacements-ne-panicked p (m ∷ ms) v h =
      let (valid, ne) = accept_backend-IsValid p m v in
      elim (Bool-cases (is_backend_reconstructable m)) [
        | inr t ↦ cc (rw (project_replacements, t) at h)
        | inl t ↦
            on_outcome t (accept_backend p m).1 refl ne
              (project_replacements-ne-panicked (accept_backend p m).0 ms valid)
      ]
    where
      on_outcome :
          is_backend_reconstructable m ≡ true
          → (r : BackendOutcome) → (accept_backend p m).1 ≡ r
          → (accept_backend p m).1 ≢ panicked
          → project_replacements (accept_backend p m).0 ms ≢ panicked
          → ⊥
      on_outcome t (done (BackendAction.emit x)) e ne later =
          later (rw (project_replacements, t, e) at h)
      on_outcome t (done (BackendAction.deferred x)) e ne later =
          cc (rw (project_replacements, t, e) at h)
      on_outcome t (rejected x) e ne later = cc (rw (project_replacements, t, e) at h)
      on_outcome t panicked e ne later = ne e

  same_span-ne-panicked : (s r : Pipeline) → same_span s r ≢ panicked
  same_span-ne-panicked s r =
      elim (Span-discrete (span s) (span r))
        as (λ d. ite d (done r) (rejected BackendSequenceError.different_span) ≢ panicked) [
          | yes e ↦ λ h. cc h
          | no e ↦ λ h. cc h
        ]

  -- On a valid ledger the judgement of a batch does not panic.
  pub prepare_backend_replacements-ne-panicked :
      (p : Pipeline) (sources replacements : List BackendMessage)
      → IsValid p
      → prepare_backend_replacements p sources replacements ≢ panicked
  unfolding prepare_backend_replacements
  prepare_backend_replacements-ne-panicked p sources replacements v h =
      elim (Bool-cases (length sources == length replacements)) [
        | inr e ↦ cc (rw (prepare_backend_replacements, e) at h)
        | inl e ↦ on_sources e (project_sources p sources) refl
      ]
    where
      on_replacements :
          (length sources == length replacements) ≡ true
          → (s : Pipeline) → project_sources p sources ≡ done s
          → (r : Outcome BackendSequenceError Pipeline) → project_replacements p replacements ≡ r
          → ⊥
      on_replacements e s f (done r) g =
          same_span-ne-panicked s r (rw (prepare_backend_replacements, e, f, g) at h)
      on_replacements e s f (rejected x) g = cc (rw (prepare_backend_replacements, e, f, g) at h)
      on_replacements e s f panicked g = project_replacements-ne-panicked p replacements v g

      on_sources :
          (length sources == length replacements) ≡ true
          → (r : Outcome BackendSequenceError Pipeline) → project_sources p sources ≡ r
          → ⊥
      on_sources e (done s) f = on_replacements e s f (project_replacements p replacements) refl
      on_sources e (rejected x) f = cc (rw (prepare_backend_replacements, e, f) at h)
      on_sources e panicked f = project_sources-ne-panicked p sources v f
