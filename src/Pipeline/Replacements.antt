-- ===== src/Pipeline/Replacements.antt =====
-- src/pipeline.rs, `prepare_backend_replacements`: a batch of responses in place of those held.
pub mod Span
pub mod Panics
use pg_proto.Base.{
  ℕ, Bool, true, false, not, List, [], ◌∷◌, Option, none, some, ◌==◌, if◌then◌else◌, length, is_ok,
}
use mathlib.Core.Logic.{ite}
use native.Mathlib.Decide.{ℕ_discrete}
use pg_proto.Wire.{Wire}
use pg_proto.Codec.Backend.{BackendMessage, to_frame}
use pg_proto.Pipeline.Types.{
  RequestState, PipelineState, Operation, Pipeline, Outcome, done, rejected, panicked,
  BackendAction, BackendSequenceError,
}
use pg_proto.Pipeline.Backend.{accept_backend}

-- What the source compares of two ledgers.
abbrev pub Span : Type 0
Span = List Operation × RequestState × Option PipelineState

abbrev pub span : Pipeline → Span
span p = (p.operations, p.request_state, p.response_state)

pub Span-discrete : Discrete Span
Span-discrete = hlevel ℕ_discrete

-- The projection of the sources, whose first message that is not emitted is the error.
unfoldable pub project_sources :
    Pipeline → List BackendMessage → Outcome BackendSequenceError Pipeline
project_sources p [] = done p
project_sources p (message ∷ messages) =
    let (q, outcome) = accept_backend p message in
    let rest = project_sources q messages in
    elim outcome [
      | done (BackendAction.emit m) ↦ rest
      | done (BackendAction.deferred m) ↦ rejected (BackendSequenceError.source m)
      | rejected e ↦ rejected (BackendSequenceError.source e.message)
      | panicked ↦ panicked
    ]

module _ ⦃w : Wire⦄ where
  abbrev pub is_backend_reconstructable : BackendMessage → Bool
  is_backend_reconstructable message = is_ok (to_frame message)

  unfoldable pub project_replacements :
      Pipeline → List BackendMessage → Outcome BackendSequenceError Pipeline
  project_replacements p [] = done p
  project_replacements p (message ∷ messages) =
      let (q, outcome) = accept_backend p message in
      let rest = project_replacements q messages in
      if not (is_backend_reconstructable message)
      then rejected (BackendSequenceError.replacement message)
      else elim outcome [
        | done (BackendAction.emit m) ↦ rest
        | done (BackendAction.deferred m) ↦ rejected (BackendSequenceError.replacement m)
        | rejected e ↦ rejected (BackendSequenceError.replacement e.message)
        | panicked ↦ panicked
      ]

  -- The end: the two ledgers are compared.
  abbrev pub same_span : Pipeline → Pipeline → Outcome BackendSequenceError Pipeline
  same_span source_projection replacement_projection =
      ite (Span-discrete (span source_projection) (span replacement_projection))
        (done replacement_projection) (rejected BackendSequenceError.different_span)

  unfoldable pub prepare_backend_replacements :
      Pipeline → List BackendMessage → List BackendMessage → Outcome BackendSequenceError Pipeline
  unfolding project_sources project_replacements
  prepare_backend_replacements p sources replacements =
      if not (length sources == length replacements)
      then rejected (BackendSequenceError.cardinality (length sources) (length replacements))
      else elim (project_sources p sources) [
        | rejected e ↦ rejected e
        | panicked ↦ panicked
        | done source_projection ↦ elim (project_replacements p replacements) [
          | rejected e ↦ rejected e
          | panicked ↦ panicked
          | done replacement_projection ↦ same_span source_projection replacement_projection
        ]
      ]
