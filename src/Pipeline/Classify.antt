-- ===== src/Pipeline/Classify.antt =====
-- src/pipeline.rs, the tables that tie wire messages, operations and the grammar's phases.
use pg_proto.Base.{Bool, true, false, Option, none, some, is_some}
use pg_proto.Codec.Frontend.{FrontendMessage}
use pg_proto.Codec.Backend.{BackendMessage}
use pg_proto.Grammar.{RuntimeState, project_internal, project_external}
use pg_proto.Pipeline.Types.{RequestState, OperationKind, Operation, FrontendPhase}

abbrev pub generated_request_state : RequestState → RuntimeState
generated_request_state RequestState.ready = RuntimeState.ready
generated_request_state (RequestState.extended bound) = RuntimeState.building
generated_request_state RequestState.extended_error = RuntimeState.extended_error
generated_request_state RequestState.copy_in = RuntimeState.extended_copy_in
generated_request_state RequestState.copy_out = RuntimeState.extended_copy_out
generated_request_state RequestState.copy_both = RuntimeState.extended_copy_both
generated_request_state RequestState.terminated = RuntimeState.terminated

-- `Sync` does not come here: it is classified before.
unfoldable pub classify_discard : FrontendMessage → Option OperationKind
classify_discard (FrontendMessage.parse _) = some OperationKind.parse
classify_discard (FrontendMessage.bind _) = some OperationKind.bind
classify_discard (FrontendMessage.describe _) = some OperationKind.describe
classify_discard (FrontendMessage.execute _) = some OperationKind.execute
classify_discard (FrontendMessage.close _) = some OperationKind.close
classify_discard FrontendMessage.flush = some OperationKind.flush
classify_discard (FrontendMessage.query _) = some OperationKind.query
classify_discard (FrontendMessage.function_call _) = some OperationKind.function_call
classify_discard (FrontendMessage.copy_data _) = some OperationKind.copy_data
classify_discard FrontendMessage.copy_done = some OperationKind.copy_done
classify_discard (FrontendMessage.copy_fail _) = some OperationKind.copy_fail
classify_discard FrontendMessage.terminate = some OperationKind.terminate
classify_discard _ = none

abbrev Classified : Type 0
Classified = Option (OperationKind × RequestState)

classify_ready : FrontendMessage → Classified
classify_ready (FrontendMessage.query _) = some (OperationKind.query, RequestState.ready)
classify_ready (FrontendMessage.function_call _) =
    some (OperationKind.function_call, RequestState.ready)
classify_ready (FrontendMessage.parse _) = some (OperationKind.parse, RequestState.extended false)
classify_ready (FrontendMessage.bind _) = some (OperationKind.bind, RequestState.extended true)
classify_ready (FrontendMessage.describe _) =
    some (OperationKind.describe, RequestState.extended false)
classify_ready (FrontendMessage.execute _) =
    some (OperationKind.execute, RequestState.extended true)
classify_ready (FrontendMessage.close _) = some (OperationKind.close, RequestState.extended false)
classify_ready FrontendMessage.terminate = some (OperationKind.terminate, RequestState.terminated)
classify_ready _ = none

classify_extended : Bool → FrontendMessage → Classified
classify_extended bound (FrontendMessage.bind _) =
    some (OperationKind.bind, RequestState.extended true)
classify_extended bound (FrontendMessage.execute _) =
    some (OperationKind.execute, RequestState.extended true)
classify_extended bound (FrontendMessage.parse _) =
    some (OperationKind.parse, RequestState.extended bound)
classify_extended bound (FrontendMessage.describe _) =
    some (OperationKind.describe, RequestState.extended bound)
classify_extended bound (FrontendMessage.close _) =
    some (OperationKind.close, RequestState.extended bound)
classify_extended bound FrontendMessage.flush =
    some (OperationKind.flush, RequestState.extended bound)
classify_extended bound FrontendMessage.sync = some (OperationKind.sync, RequestState.ready)
classify_extended bound _ = none

classify_extended_error : FrontendMessage → Classified
classify_extended_error FrontendMessage.sync = some (OperationKind.sync, RequestState.ready)
classify_extended_error message = elim (classify_discard message) [
  | none ↦ none
  | some kind ↦ some (kind, RequestState.extended_error)
]

classify_copy_in : FrontendMessage → Classified
classify_copy_in (FrontendMessage.copy_data _) =
    some (OperationKind.copy_data, RequestState.copy_in)
classify_copy_in FrontendMessage.copy_done =
    some (OperationKind.copy_done, RequestState.extended true)
classify_copy_in (FrontendMessage.copy_fail _) =
    some (OperationKind.copy_fail, RequestState.extended_error)
classify_copy_in _ = none

classify_copy_both : FrontendMessage → Classified
classify_copy_both (FrontendMessage.copy_data _) =
    some (OperationKind.copy_data, RequestState.copy_both)
classify_copy_both FrontendMessage.copy_done =
    some (OperationKind.copy_done, RequestState.copy_both)
classify_copy_both _ = none

unfoldable pub classify_frontend : RequestState → FrontendMessage → Classified
unfolding classify_discard classify_ready classify_extended classify_extended_error classify_copy_in
    classify_copy_both
classify_frontend RequestState.ready message = classify_ready message
classify_frontend (RequestState.extended bound) message = classify_extended bound message
classify_frontend RequestState.extended_error message = classify_extended_error message
classify_frontend RequestState.copy_in message = classify_copy_in message
classify_frontend RequestState.copy_both message = classify_copy_both message
classify_frontend RequestState.copy_out message = none
classify_frontend RequestState.terminated message = none

unfoldable pub project_frontend : RequestState → FrontendMessage → Classified
project_frontend state message = elim (project_external (generated_request_state state) message) [
  | none ↦ none
  | some event ↦ classify_frontend state message
]

-- `none` is the `unreachable!`.
unfoldable pub frontend_phase : RequestState → Option OperationKind → Option FrontendPhase
frontend_phase RequestState.ready head = some FrontendPhase.ready
frontend_phase (RequestState.extended bound) head = some FrontendPhase.building
frontend_phase RequestState.extended_error head = some FrontendPhase.extended_error
frontend_phase RequestState.copy_in (some OperationKind.query) = some FrontendPhase.simple_copy_in
frontend_phase RequestState.copy_in (some OperationKind.execute) =
    some FrontendPhase.extended_copy_in
frontend_phase RequestState.copy_both (some OperationKind.query) =
    some FrontendPhase.simple_copy_both
frontend_phase RequestState.copy_both (some OperationKind.execute) =
    some FrontendPhase.extended_copy_both
frontend_phase _ _ = none

unfoldable pub initial_response_state : OperationKind → RuntimeState
initial_response_state OperationKind.query = RuntimeState.simple
initial_response_state OperationKind.function_call = RuntimeState.function_response
initial_response_state OperationKind.parse = RuntimeState.parse_response
initial_response_state OperationKind.bind = RuntimeState.bind_response
initial_response_state OperationKind.describe = RuntimeState.describe_response
initial_response_state OperationKind.execute = RuntimeState.execute_response
initial_response_state OperationKind.close = RuntimeState.close_response
initial_response_state OperationKind.sync = RuntimeState.sync_response
initial_response_state _ = RuntimeState.terminated

abbrev pub response_fits : Operation → BackendMessage → Bool
response_fits operation message = is_some (project_internal operation.response_state message)

unfoldable pub response_is_terminal : OperationKind → BackendMessage → Bool
response_is_terminal OperationKind.query (BackendMessage.ready_for_query _) = true
response_is_terminal OperationKind.function_call (BackendMessage.ready_for_query _) = true
response_is_terminal OperationKind.sync (BackendMessage.ready_for_query _) = true
response_is_terminal OperationKind.parse BackendMessage.parse_complete = true
response_is_terminal OperationKind.parse (BackendMessage.error_response _) = true
response_is_terminal OperationKind.bind BackendMessage.bind_complete = true
response_is_terminal OperationKind.bind (BackendMessage.error_response _) = true
response_is_terminal OperationKind.describe (BackendMessage.row_description _) = true
response_is_terminal OperationKind.describe BackendMessage.no_data = true
response_is_terminal OperationKind.describe (BackendMessage.error_response _) = true
response_is_terminal OperationKind.execute (BackendMessage.command_complete _) = true
response_is_terminal OperationKind.execute BackendMessage.portal_suspended = true
response_is_terminal OperationKind.execute (BackendMessage.error_response _) = true
response_is_terminal OperationKind.close BackendMessage.close_complete = true
response_is_terminal OperationKind.close (BackendMessage.error_response _) = true
response_is_terminal OperationKind.copy_done BackendMessage.copy_done = true
response_is_terminal OperationKind.copy_done (BackendMessage.command_complete _) = true
response_is_terminal OperationKind.copy_done (BackendMessage.error_response _) = true
response_is_terminal OperationKind.copy_fail (BackendMessage.error_response _) = true
response_is_terminal OperationKind.flush message = true
response_is_terminal OperationKind.copy_data message = true
response_is_terminal OperationKind.terminate message = true
response_is_terminal _ _ = false

unfoldable pub is_extended_kind : OperationKind → Bool
is_extended_kind OperationKind.query = false
is_extended_kind OperationKind.function_call = false
is_extended_kind OperationKind.terminate = false
is_extended_kind _ = true

unfoldable pub response_copy_state : RuntimeState → Option RequestState
response_copy_state RuntimeState.simple_copy_in = some RequestState.copy_in
response_copy_state RuntimeState.extended_copy_in = some RequestState.copy_in
response_copy_state RuntimeState.simple_copy_out = some RequestState.copy_out
response_copy_state RuntimeState.extended_copy_out = some RequestState.copy_out
response_copy_state RuntimeState.simple_copy_both = some RequestState.copy_both
response_copy_state RuntimeState.simple_copy_both_client_done = some RequestState.copy_both
response_copy_state RuntimeState.simple_copy_both_server_done = some RequestState.copy_both
response_copy_state RuntimeState.extended_copy_both = some RequestState.copy_both
response_copy_state RuntimeState.extended_copy_both_client_done = some RequestState.copy_both
response_copy_state RuntimeState.extended_copy_both_server_done = some RequestState.copy_both
response_copy_state _ = none
