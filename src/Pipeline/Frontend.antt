-- ===== src/Pipeline/Frontend.antt =====
-- src/pipeline.rs, the frontend side: admission, and sequences of admissions.
use pg_proto.Base.{
  ℕ, Bool, true, false, ◌&&◌, not, List, [], ◌∷◌, ◌++◌, Option, none, some, is_some, ◌==◌,
  if◌then◌else◌, length, is_empty, is_ok,
}
use pg_proto.Wire.{Wire}
use pg_proto.Codec.Frontend.{FrontendMessage, to_frame}
use pg_proto.Grammar.{RuntimeState, Event, project_external, transition}
use pg_proto.Pipeline.Types.{
  RequestState, Origin, OperationKind, Operation, Pipeline, state, saturating_suc, FrontendHandling,
  FrontendAction, FrontendAdmission, immediate, waiting, FrontendProjectionError, capacity, illegal,
  FrontendPhase, Outcome, done, rejected, panicked, FrontendSequenceItem,
}
use pg_proto.Pipeline.Classify.{
  generated_request_state, classify_frontend, project_frontend, frontend_phase,
  initial_response_state,
}

abbrev pub head_kind : List Operation → Option OperationKind
head_kind [] = none
head_kind (o ∷ os) = some o.kind

-- `matches!(self.request_state, CopyIn | CopyBoth)`.
abbrev pub accepts_copy_data : RequestState → Bool
accepts_copy_data RequestState.copy_in = true
accepts_copy_data RequestState.copy_both = true
accepts_copy_data _ = false

unfoldable pub prepare_frontend :
    Pipeline → FrontendMessage → Outcome FrontendProjectionError FrontendPhase
prepare_frontend p message =
    if length p.operations == p.operation_limit && not (accepts_copy_data p.request_state)
    then rejected (capacity message)
    else if not (is_some (project_frontend p.request_state message))
    then rejected (illegal (state p) message)
    else elim (frontend_phase p.request_state (head_kind p.operations)) [
      | none ↦ panicked
      | some phase ↦ done phase
    ]

abbrev pub is_sync : OperationKind → Bool
is_sync OperationKind.sync = true
is_sync _ = false

-- The last operation that is a live `Sync`, marked; `none` if there is no such operation.
unfoldable pub discard_last_sync : List Operation → Option (List Operation)
discard_last_sync [] = none
discard_last_sync (o ∷ os) = elim (discard_last_sync os) [
  | some os' ↦ some (o ∷ os')
  | none ↦
      if is_sync o.kind && not o.discarded then some (record o { discarded = true } ∷ os) else none
]

-- A `Sync` sent before COPY IN began is ignored by PostgreSQL once the copy ends.
unfoldable pub retire_copy_sync : RequestState → OperationKind → List Operation → List Operation
unfolding discard_last_sync
retire_copy_sync RequestState.copy_in OperationKind.copy_done os = elim (discard_last_sync os) [
  | none ↦ os
  | some os' ↦ os'
]
retire_copy_sync RequestState.copy_in OperationKind.copy_fail os = elim (discard_last_sync os) [
  | none ↦ os
  | some os' ↦ os'
]
retire_copy_sync _ _ os = os

-- The phase that a frontend message takes the head's response to.
unfoldable pub external_target : RuntimeState → FrontendMessage → RuntimeState
external_target s message = elim (project_external s message) [
  | none ↦ s
  | some event ↦ elim (transition s event) [ none ↦ s | some target ↦ target ]
]

unfoldable pub advance_head : FrontendMessage → List Operation → List Operation
unfolding external_target
advance_head message [] = []
advance_head message (o ∷ os) =
    record o { response_state = external_target o.response_state message } ∷ os

abbrev pub is_inert_kind : OperationKind → Bool
is_inert_kind OperationKind.flush = true
is_inert_kind OperationKind.copy_data = true
is_inert_kind OperationKind.copy_done = true
is_inert_kind OperationKind.copy_fail = true
is_inert_kind OperationKind.terminate = true
is_inert_kind _ = false

abbrev pub is_inert : Operation → Bool
is_inert o = if is_inert_kind o.kind then true else o.discarded

unfoldable pub remove_inert_heads : List Operation → List Operation
remove_inert_heads [] = []
remove_inert_heads (o ∷ os) = if is_inert o then remove_inert_heads os else o ∷ os

abbrev pub origin_of : FrontendHandling → Origin
origin_of FrontendHandling.forward = Origin.forwarded
origin_of FrontendHandling.local = Origin.local

abbrev pub is_extended_error : RequestState → Bool
is_extended_error RequestState.extended_error = true
is_extended_error _ = false

unfoldable pub action_of : FrontendHandling → Bool → ℕ → FrontendMessage → FrontendAction
action_of FrontendHandling.forward false id message = FrontendAction.forward id message
action_of FrontendHandling.forward true id message = FrontendAction.discard id
action_of FrontendHandling.local discarded id message = FrontendAction.discard id

abbrev pub admission_of : Bool → FrontendAction → FrontendAdmission
admission_of true action = waiting action
admission_of false action = immediate action

abbrev pub operation_of : ℕ → OperationKind → RequestState → FrontendHandling → Operation
operation_of id kind next handling = record {
  id = id;
  kind = kind;
  origin = origin_of handling;
  discarded = is_extended_error next && not (is_sync kind);
  response_state = initial_response_state kind;
}

-- `commit_frontend` on the classification of the message.
unfoldable pub commit_classified :
    Pipeline
    → FrontendMessage
    → FrontendHandling
    → OperationKind
    → RequestState
    → Pipeline × FrontendAdmission
unfolding retire_copy_sync advance_head remove_inert_heads action_of
commit_classified p message handling kind next =
    let operation = operation_of p.next_id kind next handling in
    let earlier = advance_head message (retire_copy_sync p.request_state kind p.operations) in
    (
      record p {
        operations = remove_inert_heads (earlier ++ operation ∷ []);
        request_state = next;
        next_id = saturating_suc p.next_id;
      },
      admission_of (not (is_empty p.operations))
          (action_of handling operation.discarded p.next_id message),
    )

abbrev pub FrontendOutcome : Type 0
FrontendOutcome = Outcome FrontendProjectionError FrontendAdmission

unfoldable pub commit_frontend :
    Pipeline → FrontendMessage → FrontendHandling → Pipeline × FrontendOutcome
unfolding commit_classified
commit_frontend p message handling = elim (classify_frontend p.request_state message) [
  | none ↦ (p, panicked)
  | some (kind, next) ↦
      let (p', admission) = commit_classified p message handling kind next in (p', done admission)
]

unfoldable pub accept_frontend :
    Pipeline → FrontendMessage → FrontendHandling → Pipeline × FrontendOutcome
unfolding prepare_frontend commit_frontend
accept_frontend p message handling = elim (prepare_frontend p message) [
  | rejected e ↦ (p, rejected e)
  | panicked ↦ (p, panicked)
  | done phase ↦ commit_frontend p message handling
]

-- `frontend_transition_id`.
unfoldable pub frontend_transition_id : Pipeline → FrontendMessage → Option (RuntimeState × Event)
frontend_transition_id p message =
    let s = generated_request_state p.request_state in
    elim (project_external s message) [
      | none ↦ none
      | some event ↦ elim (transition s event) [ none ↦ none | some target ↦ some (s, event) ]
    ]

module _ ⦃w : Wire⦄ where
  abbrev pub is_reconstructable : FrontendMessage → Bool
  is_reconstructable message = is_ok (to_frame message)

  -- The loop of `prepare_frontend_sequence` on the private copy: the projected ledger and its items.
  unfoldable pub prepare_frontend_sequence :
      Pipeline
      → List FrontendMessage
      → FrontendHandling
      → Outcome FrontendProjectionError (Pipeline × List FrontendSequenceItem)
  prepare_frontend_sequence p [] handling = done (p, [])
  prepare_frontend_sequence p (message ∷ messages) handling =
      if not (is_reconstructable message)
      then rejected (illegal (state p) message)
      else let (p', outcome) = accept_frontend p message handling in
        elim outcome [
          | rejected e ↦ rejected e
          | panicked ↦ panicked
          | done admission ↦ elim (prepare_frontend_sequence p' messages handling) [
            | rejected e ↦ rejected e
            | panicked ↦ panicked
            | done (q, items) ↦ done (
              q,
              record { transition_id = frontend_transition_id p message; admission = admission }
                  ∷ items,
            )
          ]
        ]

-- The live ledger becomes the projected one.
unfoldable pub commit_frontend_sequence :
    Pipeline → Pipeline × List FrontendSequenceItem → Pipeline × List FrontendSequenceItem
commit_frontend_sequence p (projected, items) = (projected, items)
