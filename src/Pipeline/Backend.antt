-- ===== src/Pipeline/Backend.antt =====
-- src/pipeline.rs, the backend side: what a response does to the ledger.
use pg_proto.Base.{
  ℕ, Bool, true, false, ◌&&◌, not, List, [], ◌∷◌, Option, none, some, ◌==◌, if◌then◌else◌, ◌++◌,
}
use mathlib.Core.Option
use pg_proto.Codec.Backend.{BackendMessage}
use pg_proto.Grammar.{RuntimeState, project_internal, transition}
use pg_proto.Pipeline.Types.{
  RequestState, public, OperationKind, Operation, Pipeline, state, Outcome, done, rejected,
  panicked, PreparedResponse, BackendAction, BackendProjectionError,
}
use pg_proto.Pipeline.Classify.{response_is_terminal, is_extended_kind, response_copy_state}
use pg_proto.Pipeline.Frontend.{is_sync, remove_inert_heads}
use pg_proto.Pipeline.Prepare.{is_local, prepare_response}

-- Every operation up to the first `Sync` is marked; the flag says that there is a `Sync`.
unfoldable pub discard_until_sync : List Operation → List Operation × Bool
discard_until_sync [] = ([], false)
discard_until_sync (o ∷ os) =
    let (rest, sync_accepted) = discard_until_sync os in
    if is_sync o.kind then (o ∷ os, true) else (record o { discarded = true } ∷ rest, sync_accepted)

unfoldable pub enter_extended_error : Pipeline → Pipeline
enter_extended_error p =
    let (os, sync_accepted) = discard_until_sync p.operations in
    record p {
      operations = os;
      request_state = if sync_accepted then p.request_state else RequestState.extended_error;
      response_state = none;
    }

-- The operation named `id`, what stands before it and what stands behind it.
unfoldable pub split_at_id :
    ℕ → List Operation → Option (List Operation × Operation × List Operation)
split_at_id id [] = none
split_at_id id (o ∷ os) =
    let rest = split_at_id id os in
    if o.id == id
    then some ([], o, os)
    else elim rest [ none ↦ none | some (before, found, behind) ↦ some (o ∷ before, found, behind) ]

unfoldable pub discard_behind : Pipeline → List Operation → Operation → List Operation → Pipeline
unfolding discard_until_sync
discard_behind p before failed behind =
    if not (is_local failed.origin && is_extended_kind failed.kind)
    then p
    else let (os, sync_accepted) = discard_until_sync behind in
      record p {
        operations = before ++ (failed ∷ os);
        request_state = if sync_accepted then p.request_state else RequestState.extended_error;
      }

unfoldable pub project_deferred_local_error : Pipeline → ℕ → Pipeline
unfolding split_at_id discard_behind
project_deferred_local_error p id = elim (split_at_id id p.operations) [
  | none ↦ p
  | some (before, failed, behind) ↦ discard_behind p before failed behind
]

abbrev pub is_error : BackendMessage → Bool
is_error (BackendMessage.error_response r) = true
is_error _ = false

-- `request_state` follows the response into COPY IN and COPY BOTH.
abbrev pub follow_copy : Option RequestState → RequestState → RequestState
follow_copy (some RequestState.copy_in) s = RequestState.copy_in
follow_copy (some RequestState.copy_both) s = RequestState.copy_both
follow_copy _ s = s

unfoldable pub pop_head : Pipeline → OperationKind → Bool → List Operation → Pipeline
unfolding enter_extended_error
pop_head p kind error later =
    let popped = record p { operations = later } in
    if error && is_extended_kind kind then enter_extended_error popped else popped

-- `commit_response` once the event and the next phase are known, on the head and what is behind it.
unfoldable pub commit_emit :
    Pipeline → Operation → List Operation → RuntimeState → BackendMessage → Pipeline
unfolding pop_head remove_inert_heads
commit_emit p head later next message =
    let copy = response_copy_state next in
    let terminal = response_is_terminal head.kind message in
    let moved =
      if terminal
      then pop_head p head.kind (is_error message) later
      else record p { operations = record head { response_state = next } ∷ later } in
    record moved {
      operations = remove_inert_heads moved.operations;
      request_state = follow_copy copy moved.request_state;
      response_state = if terminal then none else Option.map public copy;
    }

abbrev pub BackendOutcome : Type 0
BackendOutcome = Outcome BackendProjectionError BackendAction

unfoldable pub commit_at :
    Pipeline → List Operation → RuntimeState → BackendMessage → Pipeline × BackendOutcome
unfolding commit_emit
commit_at p [] response_state message = (p, panicked)
commit_at p (head ∷ later) response_state message = elim (project_internal response_state message) [
  | none ↦ (p, panicked)
  | some event ↦ elim (transition response_state event) [
    | none ↦ (p, panicked)
    | some next ↦ (commit_emit p head later next message, done (BackendAction.emit message))
  ]
]

unfoldable pub commit_response :
    Pipeline → PreparedResponse → BackendMessage → Pipeline × BackendOutcome
unfolding commit_at
commit_response p PreparedResponse.asynchronous message = (p, done (BackendAction.emit message))
commit_response p PreparedResponse.deferred message = (p, done (BackendAction.deferred message))
commit_response p PreparedResponse.illegal message =
    (p, rejected (record { state = state p; message = message }))
commit_response p (PreparedResponse.emit head response_state) message =
    commit_at p p.operations response_state message

-- The ledger that a deferred local error leaves to `commit_response`.
unfoldable pub project_error : Pipeline → PreparedResponse → Option ℕ → BackendMessage → Pipeline
unfolding project_deferred_local_error
project_error p PreparedResponse.deferred (some id) (BackendMessage.error_response r) =
    project_deferred_local_error p id
project_error p _ _ _ = p

unfoldable pub accept_response : Pipeline → Option ℕ → BackendMessage → Pipeline × BackendOutcome
unfolding prepare_response project_error commit_response
accept_response p local_id message =
    let prepared = prepare_response p local_id message in
    commit_response (project_error p prepared local_id message) prepared message

unfoldable pub accept_backend : Pipeline → BackendMessage → Pipeline × BackendOutcome
unfolding accept_response
accept_backend p message = accept_response p none message

unfoldable pub try_emit_local : Pipeline → ℕ → BackendMessage → Pipeline × BackendOutcome
unfolding accept_response
try_emit_local p id message = accept_response p (some id) message
