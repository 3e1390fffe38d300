-- ===== src/Pipeline/Replacements/Span.antt =====
-- src/pipeline.rs: when a batch of replacements is accepted.
use pg_proto.Base.{
  true, List, [], ◌∷◌, ◌==◌, length, ◌≡◌, refl, ap, ◌∙◌, ◌↔◌, arith, Bool-cases, inl, inr, All,
  ==_iff,
}
use pg_proto.Wire.{Wire}
use mathlib.Core.Path.{subst}
use mathlib.Core.Logic.{ite}
use pg_proto.Codec.Backend.{BackendMessage}
use pg_proto.Pipeline.Types.{
  Pipeline, Outcome, done, rejected, panicked, BackendAction, BackendSequenceError,
}
use pg_proto.Pipeline.Backend.{accept_backend, BackendOutcome}
use pg_proto.Pipeline.Replacements.{
  span, Span-discrete, project_sources, is_backend_reconstructable, project_replacements, same_span,
  prepare_backend_replacements,
}

-- The ledger `p` emits each of the messages at once, and `q` is what it is then.
abbrev pub Emits : Pipeline → List BackendMessage → Pipeline → Type 0
Emits p [] q = p ≡ q
Emits p (m ∷ ms) q =
    (emitted : BackendMessage) × ((accept_backend p m).1 ≡ done (BackendAction.emit emitted))
    × Emits (accept_backend p m).0 ms q

project_sources-Emits :
    (p : Pipeline) (ms : List BackendMessage) {q : Pipeline}
    → project_sources p ms ≡ done q
    → Emits p ms q
unfolding project_sources
project_sources-Emits p [] h = cc
project_sources-Emits p (m ∷ ms) {q} h =
    on_outcome (accept_backend p m).1 refl (λ f. project_sources-Emits (accept_backend p m).0 ms f)
  where
    on_outcome :
        (r : BackendOutcome)
        → (accept_backend p m).1 ≡ r
        → (project_sources (accept_backend p m).0 ms ≡ done q → Emits (accept_backend p m).0 ms q)
        → Emits p (m ∷ ms) q
    on_outcome (done (BackendAction.emit x)) e later = (x, e, later (rw (project_sources, e) at h))
    on_outcome (done (BackendAction.deferred x)) e later =
        absurd (cc (rw (project_sources, e) at h))
    on_outcome (rejected x) e later = absurd (cc (rw (project_sources, e) at h))
    on_outcome panicked e later = absurd (cc (rw (project_sources, e) at h))

Emits-project_sources :
    (p : Pipeline) (ms : List BackendMessage) {q : Pipeline}
    → Emits p ms q
    → project_sources p ms ≡ done q
unfolding project_sources
Emits-project_sources p [] h = ap done h
Emits-project_sources p (m ∷ ms) (x, e, rest) =
    rw (project_sources, e) (Emits-project_sources (accept_backend p m).0 ms rest)

module _ ⦃w : Wire⦄ where
  abbrev pub AllReconstructable : List BackendMessage → Type 0
  AllReconstructable ms = All (λ m. is_backend_reconstructable m ≡ true) ms

  project_replacements-Emits :
      (p : Pipeline) (ms : List BackendMessage) {q : Pipeline}
      → project_replacements p ms ≡ done q
      → AllReconstructable ms × Emits p ms q
  unfolding project_replacements
  project_replacements-Emits p [] h = (tt, cc)
  project_replacements-Emits p (m ∷ ms) {q} h = elim (Bool-cases (is_backend_reconstructable m)) [
    | inr t ↦ absurd (cc (rw (project_replacements, t) at h))
    | inl t ↦
        on_outcome t (accept_backend p m).1 refl
          (λ f. project_replacements-Emits (accept_backend p m).0 ms f)
  ]
    where
      on_outcome :
          is_backend_reconstructable m ≡ true
          → (r : BackendOutcome) → (accept_backend p m).1 ≡ r
          → (project_replacements (accept_backend p m).0 ms ≡ done q
              → AllReconstructable ms × Emits (accept_backend p m).0 ms q)
          → AllReconstructable (m ∷ ms) × Emits p (m ∷ ms) q
      on_outcome t (done (BackendAction.emit x)) e later =
          let (all, rest) = later (rw (project_replacements, t, e) at h) in ((t, all), (x, e, rest))
      on_outcome t (done (BackendAction.deferred x)) e later =
          absurd (cc (rw (project_replacements, t, e) at h))
      on_outcome t (rejected x) e later = absurd (cc (rw (project_replacements, t, e) at h))
      on_outcome t panicked e later = absurd (cc (rw (project_replacements, t, e) at h))

  Emits-project_replacements :
      (p : Pipeline) (ms : List BackendMessage) {q : Pipeline}
      → AllReconstructable ms
      → Emits p ms q
      → project_replacements p ms ≡ done q
  unfolding project_replacements
  Emits-project_replacements p [] all h = ap done h
  Emits-project_replacements p (m ∷ ms) (t, all) (x, e, rest) =
      rw (project_replacements, t, e)
        (Emits-project_replacements (accept_backend p m).0 ms all rest)

  same_span-eq-done :
      (s r : Pipeline) {q : Pipeline} → same_span s r ≡ done q → (r ≡ q) × (span s ≡ span r)
  same_span-eq-done s r {q} h =
      elim (Span-discrete (span s) (span r))
          as (λ d.
            ite d (done r) (rejected BackendSequenceError.different_span) ≡ done q
            → (r ≡ q) × (span s ≡ span r)) [ yes e ↦ λ f. (cc, e) | no e ↦ λ f. absurd (cc f) ]
        h

  same_span-same : (s r : Pipeline) → span s ≡ span r → same_span s r ≡ done r
  same_span-same s r same =
      elim (Span-discrete (span s) (span r))
        as (λ d. ite d (done r) (rejected BackendSequenceError.different_span) ≡ done r) [
          | yes e ↦ refl
          | no e ↦ absurd (e same)
        ]

  pub accepted :
      (p : Pipeline) (sources replacements : List BackendMessage) {q : Pipeline}
      → prepare_backend_replacements p sources replacements ≡ done q
      → (length sources ≡ length replacements)
        × AllReconstructable replacements
        × Emits p replacements q
        × ((s : Pipeline) × Emits p sources s × (span s ≡ span q))
  unfolding prepare_backend_replacements
  accepted p sources replacements {q} h =
      elim (Bool-cases (length sources == length replacements)) [
        | inr e ↦ absurd (cc (rw (prepare_backend_replacements, e) at h))
        | inl e ↦ on_sources e (project_sources p sources) refl
      ]
    where
      on_replacements :
          (length sources == length replacements) ≡ true
          → (s : Pipeline) → project_sources p sources ≡ done s
          → (r : Outcome BackendSequenceError Pipeline) → project_replacements p replacements ≡ r
          → (length sources ≡ length replacements)
            × AllReconstructable replacements
            × Emits p replacements q
            × ((s : Pipeline) × Emits p sources s × (span s ≡ span q))
      on_replacements e s f (rejected x) g =
          absurd (cc (rw (prepare_backend_replacements, e, f, g) at h))
      on_replacements e s f panicked g =
          absurd (cc (rw (prepare_backend_replacements, e, f, g) at h))
      on_replacements e s f (done r) g =
          let (is_q, same) =
            same_span-eq-done s r (rw (prepare_backend_replacements, e, f, g) at h) in
          let (all, emits) = project_replacements-Emits p replacements g in
          (
            (==_iff (length sources) (length replacements)).0 e,
            all,
            subst (Emits p replacements) is_q emits,
            (s, project_sources-Emits p sources f, same ∙ ap span is_q),
          )

      on_sources :
          (length sources == length replacements) ≡ true
          → (r : Outcome BackendSequenceError Pipeline) → project_sources p sources ≡ r
          → (length sources ≡ length replacements)
            × AllReconstructable replacements
            × Emits p replacements q
            × ((s : Pipeline) × Emits p sources s × (span s ≡ span q))
      on_sources e (rejected x) f = absurd (cc (rw (prepare_backend_replacements, e, f) at h))
      on_sources e panicked f = absurd (cc (rw (prepare_backend_replacements, e, f) at h))
      on_sources e (done s) f = on_replacements e s f (project_replacements p replacements) refl

  accepts :
      (p : Pipeline) (sources replacements : List BackendMessage) (s : Pipeline) {q : Pipeline}
      → length sources ≡ length replacements
      → AllReconstructable replacements
      → Emits p replacements q
      → Emits p sources s
      → span s ≡ span q
      → prepare_backend_replacements p sources replacements ≡ done q
  unfolding prepare_backend_replacements
  accepts p sources replacements s {q} long all emits held same =
      let counts : (length sources == length replacements) ≡ true = ground arith in
      rw
        (
          prepare_backend_replacements,
          counts,
          Emits-project_sources p sources held,
          Emits-project_replacements p replacements all emits,
        )
        (same_span-same s q same)

  -- A batch is accepted, and leaves the ledger `q`, exactly when it is as long as the messages held,
  -- each of its messages can be encoded, the ledger emits each of them and each of those held at
  -- once, and the two ways end in the same operations, request state and response state.
  pub prepare_backend_replacements_iff :
      (p : Pipeline) (sources replacements : List BackendMessage) (q : Pipeline)
      → (prepare_backend_replacements p sources replacements ≡ done q) ↔ (
          (length sources ≡ length replacements)
          × AllReconstructable replacements
          × Emits p replacements q
          × ((s : Pipeline) × Emits p sources s × (span s ≡ span q)))
  prepare_backend_replacements_iff p sources replacements q = (
    accepted p sources replacements,
    (λ (long, all, emits, (s, held, same)).
        accepts p sources replacements s long all emits held same),
  )
