-- ===== src/Pipeline/Deviations.antt =====
-- Where src/pipeline.rs does what its documentation does not say.
use pg_proto.Base.{◌<◌, true, List, ◌∷◌, ◌≡◌, ◌≢◌, refl, arith, none, some, length, Bytes}
use pg_proto.Codec.Frontend.{FrontendMessage}
use pg_proto.Codec.Backend.{BackendMessage}
use pg_proto.Grammar.{RuntimeState, Event, project_internal, transition}
use pg_proto.Pipeline.Types.{
  Operation, OperationKind, Pipeline, RequestState, done, rejected, FrontendHandling,
  FrontendAction, FrontendAdmission, into_action, capacity,
}
use pg_proto.Pipeline.Classify.{classify_frontend, response_is_terminal, response_copy_state}
use pg_proto.Pipeline.Frontend.{
  prepare_frontend, accept_frontend, commit_frontend, commit_classified, action_of,
  remove_inert_heads,
}
use pg_proto.Pipeline.Prepare.{prepare_response, prepare_with, prepare_on, prepare_at_head}
use pg_proto.Pipeline.Backend.{
  accept_backend, accept_response, commit_response, commit_at, commit_emit, project_error,
}
use pg_proto.Pipeline.Answers.{may_answer}

-- A ledger with more operations than its limit rejects no message for capacity.
pub prepare_frontend-overfull :
    (p : Pipeline) (m : FrontendMessage)
    → p.operation_limit < length p.operations
    → prepare_frontend p m ≢ rejected (capacity m)
unfolding prepare_frontend
prepare_frontend-overfull p m over h = ground arith

-- When the ledger is in COPY IN and admits a `CopyFail` that is to be forwarded, the action is to
-- discard it.
pub accept_frontend-copy_fail :
    (p : Pipeline) (reason : Bytes) {a : FrontendAdmission}
    → p.request_state ≡ RequestState.copy_in
    → (accept_frontend p (FrontendMessage.copy_fail reason) FrontendHandling.forward).1 ≡ done a
    → into_action a ≡ FrontendAction.discard p.next_id
unfolding accept_frontend commit_frontend commit_classified classify_frontend action_of
accept_frontend-copy_fail p reason s h = ground arith

execute_row :
    (s : RuntimeState)
    → s ≡ RuntimeState.execute_response
    → (project_internal s BackendMessage.empty_query_response ≡ some Event.continue)
      × (transition s Event.continue ≡ some RuntimeState.execute_response)
unfolding project_internal transition
execute_row s h = rw h (refl, refl)

-- When the head is an `Execute` in its first phase that may answer, `EmptyQueryResponse` leaves the
-- operations unchanged: the `Execute` stays the head in the same phase.
pub accept_backend-empty_query :
    (p : Pipeline) (head : Operation) (later : List Operation)
    → p.operations ≡ head ∷ later
    → head.kind ≡ OperationKind.execute
    → head.response_state ≡ RuntimeState.execute_response
    → may_answer none head BackendMessage.empty_query_response ≡ true
    → (accept_backend p BackendMessage.empty_query_response).0.operations ≡ p.operations
unfolding accept_backend accept_response commit_response commit_at commit_emit prepare_response
    prepare_with prepare_on prepare_at_head response_is_terminal remove_inert_heads project_error
    response_copy_state
accept_backend-empty_query p head later at_head kind phase may =
    ground (arith, execute_row head.response_state phase)
