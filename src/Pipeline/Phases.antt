-- ===== src/Pipeline/Phases.antt =====
-- The phases that the response of each kind of operation goes through, against the grammar.
use pg_proto.Base.{Bool, true, false, ◌≡◌, refl, arith}
use pg_proto.Codec.Frontend.{FrontendMessage}
use pg_proto.Grammar.{RuntimeState, project_external, transition}
use pg_proto.Pipeline.Types.{OperationKind}
use pg_proto.Pipeline.Classify.{initial_response_state}
use pg_proto.Pipeline.Frontend.{external_target}

-- The phases in which a response to a simple query, and to an `Execute`, can stand.
unfoldable pub is_query_phase : RuntimeState → Bool
is_query_phase RuntimeState.simple = true
is_query_phase RuntimeState.simple_error = true
is_query_phase RuntimeState.simple_copy_in = true
is_query_phase RuntimeState.simple_copy_in_done = true
is_query_phase RuntimeState.simple_copy_in_failed = true
is_query_phase RuntimeState.simple_copy_out = true
is_query_phase RuntimeState.simple_copy_out_done = true
is_query_phase RuntimeState.simple_copy_ready = true
is_query_phase RuntimeState.simple_copy_both = true
is_query_phase RuntimeState.simple_copy_both_client_done = true
is_query_phase RuntimeState.simple_copy_both_server_done = true
is_query_phase RuntimeState.simple_copy_both_done = true
is_query_phase RuntimeState.simple_copy_both_failed = true
is_query_phase _ = false

unfoldable pub is_execute_phase : RuntimeState → Bool
is_execute_phase RuntimeState.execute_response = true
is_execute_phase RuntimeState.extended_copy_in = true
is_execute_phase RuntimeState.extended_copy_in_done = true
is_execute_phase RuntimeState.extended_copy_in_failed = true
is_execute_phase RuntimeState.extended_copy_out = true
is_execute_phase RuntimeState.extended_copy_out_done = true
is_execute_phase RuntimeState.extended_copy_both = true
is_execute_phase RuntimeState.extended_copy_both_client_done = true
is_execute_phase RuntimeState.extended_copy_both_server_done = true
is_execute_phase RuntimeState.extended_copy_both_done = true
is_execute_phase RuntimeState.extended_copy_both_failed = true
is_execute_phase _ = false

-- The phases of each kind; an operation that gets no response stands in `terminated`.
unfoldable pub answers : OperationKind → RuntimeState → Bool
unfolding is_query_phase is_execute_phase
answers OperationKind.query s = is_query_phase s
answers OperationKind.execute s = is_execute_phase s
answers OperationKind.function_call RuntimeState.function_response = true
answers OperationKind.function_call RuntimeState.function_ready = true
answers OperationKind.parse RuntimeState.parse_response = true
answers OperationKind.bind RuntimeState.bind_response = true
answers OperationKind.describe RuntimeState.describe_response = true
answers OperationKind.close RuntimeState.close_response = true
answers OperationKind.sync RuntimeState.sync_response = true
answers OperationKind.flush RuntimeState.terminated = true
answers OperationKind.copy_data RuntimeState.terminated = true
answers OperationKind.copy_done RuntimeState.terminated = true
answers OperationKind.copy_fail RuntimeState.terminated = true
answers OperationKind.terminate RuntimeState.terminated = true
answers _ _ = false

-- Ready, Building and ExtendedError: where the response of an operation ends.
unfoldable pub is_final : RuntimeState → Bool
is_final RuntimeState.ready = true
is_final RuntimeState.building = true
is_final RuntimeState.extended_error = true
is_final _ = false

pub answers-initial_response_state :
    (k : OperationKind) → answers k (initial_response_state k) ≡ true
unfolding answers initial_response_state
answers-initial_response_state OperationKind.query = refl
answers-initial_response_state _ = refl

pub answers-external_target :
    (k : OperationKind) (s : RuntimeState) (n : FrontendMessage)
    → answers k s ≡ true
    → answers k (external_target s n) ≡ true
unfolding answers external_target project_external transition
answers-external_target OperationKind.query RuntimeState.ready n h = ground arith
answers-external_target OperationKind.execute RuntimeState.ready n h = ground arith
answers-external_target _ _ n h = ground arith
