-- ===== src/Grammar/Internal.antt =====
-- src/grammar.rs, the messages by which the backend role advances its own protocol.
use pg_proto.Base.{Option, none, some}
use pg_proto.Codec.Backend.{BackendMessage}
use pg_proto.Grammar.States.{RuntimeState, Event}

unfoldable pub project_internal : RuntimeState → BackendMessage → Option Event
project_internal RuntimeState.simple (BackendMessage.row_description _) = some Event.continue
project_internal RuntimeState.simple (BackendMessage.data_row _) = some Event.continue
project_internal RuntimeState.simple (BackendMessage.command_complete _) = some Event.continue
project_internal RuntimeState.simple BackendMessage.empty_query_response = some Event.continue
project_internal RuntimeState.simple (BackendMessage.copy_in_response _) = some Event.copy_in
project_internal RuntimeState.simple (BackendMessage.copy_out_response _) = some Event.copy_out
project_internal RuntimeState.simple (BackendMessage.copy_both_response _) = some Event.copy_both
project_internal RuntimeState.simple (BackendMessage.ready_for_query _) = some Event.ready
project_internal RuntimeState.simple (BackendMessage.error_response _) = some Event.error
project_internal RuntimeState.simple_error (BackendMessage.ready_for_query _) = some Event.ready
project_internal RuntimeState.parse_response BackendMessage.parse_complete = some Event.complete
project_internal RuntimeState.parse_response (BackendMessage.error_response _) = some Event.error
project_internal RuntimeState.bind_response BackendMessage.bind_complete = some Event.complete
project_internal RuntimeState.bind_response (BackendMessage.error_response _) = some Event.error
project_internal RuntimeState.describe_response (BackendMessage.parameter_description _) =
    some Event.parameter_description
project_internal RuntimeState.describe_response (BackendMessage.row_description _) =
    some Event.row_description
project_internal RuntimeState.describe_response BackendMessage.no_data = some Event.no_data
project_internal RuntimeState.describe_response (BackendMessage.error_response _) = some Event.error
project_internal RuntimeState.execute_response (BackendMessage.row_description _) =
    some Event.continue
project_internal RuntimeState.execute_response (BackendMessage.data_row _) = some Event.continue
project_internal RuntimeState.execute_response BackendMessage.empty_query_response =
    some Event.continue
project_internal RuntimeState.execute_response (BackendMessage.copy_in_response _) =
    some Event.copy_in
project_internal RuntimeState.execute_response (BackendMessage.copy_out_response _) =
    some Event.copy_out
project_internal RuntimeState.execute_response (BackendMessage.copy_both_response _) =
    some Event.copy_both
project_internal RuntimeState.execute_response (BackendMessage.command_complete _) =
    some Event.command_complete
project_internal RuntimeState.execute_response BackendMessage.portal_suspended =
    some Event.portal_suspended
project_internal RuntimeState.execute_response (BackendMessage.error_response _) = some Event.error
project_internal RuntimeState.close_response BackendMessage.close_complete = some Event.complete
project_internal RuntimeState.close_response (BackendMessage.error_response _) = some Event.error
project_internal RuntimeState.sync_response (BackendMessage.ready_for_query _) = some Event.ready
project_internal RuntimeState.function_response (BackendMessage.function_call_response _) =
    some Event.result
project_internal RuntimeState.function_response (BackendMessage.error_response _) = some Event.error
project_internal RuntimeState.function_ready (BackendMessage.ready_for_query _) = some Event.ready
project_internal RuntimeState.simple_copy_in_done (BackendMessage.command_complete _) =
    some Event.command_complete
project_internal RuntimeState.simple_copy_in_done (BackendMessage.error_response _) =
    some Event.error
project_internal RuntimeState.simple_copy_in_failed (BackendMessage.error_response _) =
    some Event.error
project_internal RuntimeState.simple_copy_out (BackendMessage.copy_data _) = some Event.payload
project_internal RuntimeState.simple_copy_out BackendMessage.copy_done = some Event.done
project_internal RuntimeState.simple_copy_out (BackendMessage.error_response _) = some Event.error
project_internal RuntimeState.simple_copy_out_done (BackendMessage.command_complete _) =
    some Event.command_complete
project_internal RuntimeState.simple_copy_ready (BackendMessage.ready_for_query _) =
    some Event.ready
project_internal RuntimeState.extended_copy_in_done (BackendMessage.command_complete _) =
    some Event.command_complete
project_internal RuntimeState.extended_copy_in_done (BackendMessage.error_response _) =
    some Event.error
project_internal RuntimeState.extended_copy_in_failed (BackendMessage.error_response _) =
    some Event.error
project_internal RuntimeState.extended_copy_out (BackendMessage.copy_data _) = some Event.payload
project_internal RuntimeState.extended_copy_out BackendMessage.copy_done = some Event.done
project_internal RuntimeState.extended_copy_out (BackendMessage.error_response _) = some Event.error
project_internal RuntimeState.extended_copy_out_done (BackendMessage.command_complete _) =
    some Event.command_complete
project_internal RuntimeState.simple_copy_both (BackendMessage.copy_data _) = some Event.send_data
project_internal RuntimeState.simple_copy_both BackendMessage.copy_done = some Event.send_done
project_internal RuntimeState.simple_copy_both (BackendMessage.error_response _) = some Event.error
project_internal RuntimeState.simple_copy_both_client_done (BackendMessage.copy_data _) =
    some Event.send_data
project_internal RuntimeState.simple_copy_both_client_done BackendMessage.copy_done =
    some Event.send_done
project_internal RuntimeState.simple_copy_both_client_done (BackendMessage.error_response _) =
    some Event.error
project_internal RuntimeState.simple_copy_both_done (BackendMessage.command_complete _) =
    some Event.command_complete
project_internal RuntimeState.simple_copy_both_failed (BackendMessage.error_response _) =
    some Event.error
project_internal RuntimeState.extended_copy_both (BackendMessage.copy_data _) = some Event.send_data
project_internal RuntimeState.extended_copy_both BackendMessage.copy_done = some Event.send_done
project_internal RuntimeState.extended_copy_both (BackendMessage.error_response _) =
    some Event.error
project_internal RuntimeState.extended_copy_both_client_done (BackendMessage.copy_data _) =
    some Event.send_data
project_internal RuntimeState.extended_copy_both_client_done BackendMessage.copy_done =
    some Event.send_done
project_internal RuntimeState.extended_copy_both_client_done (BackendMessage.error_response _) =
    some Event.error
project_internal RuntimeState.extended_copy_both_done (BackendMessage.command_complete _) =
    some Event.command_complete
project_internal RuntimeState.extended_copy_both_failed (BackendMessage.error_response _) =
    some Event.error
project_internal _ _ = none
