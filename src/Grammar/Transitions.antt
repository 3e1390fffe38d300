-- ===== src/Grammar/Transitions.antt =====
-- src/grammar.rs, the targets of the legal events.
use pg_proto.Base.{Option, none, some}
use pg_proto.Grammar.States.{RuntimeState, Event}

unfoldable pub transition : RuntimeState → Event → Option RuntimeState
transition RuntimeState.ready Event.query = some RuntimeState.simple
transition RuntimeState.ready Event.parse = some RuntimeState.parse_response
transition RuntimeState.ready Event.bind = some RuntimeState.bind_response
transition RuntimeState.ready Event.describe = some RuntimeState.describe_response
transition RuntimeState.ready Event.execute = some RuntimeState.execute_response
transition RuntimeState.ready Event.close = some RuntimeState.close_response
transition RuntimeState.ready Event.function_call = some RuntimeState.function_response
transition RuntimeState.ready Event.terminate = some RuntimeState.terminated
transition RuntimeState.simple Event.continue = some RuntimeState.simple
transition RuntimeState.simple Event.copy_in = some RuntimeState.simple_copy_in
transition RuntimeState.simple Event.copy_out = some RuntimeState.simple_copy_out
transition RuntimeState.simple Event.copy_both = some RuntimeState.simple_copy_both
transition RuntimeState.simple Event.ready = some RuntimeState.ready
transition RuntimeState.simple Event.error = some RuntimeState.simple_error
transition RuntimeState.simple_error Event.ready = some RuntimeState.ready
transition RuntimeState.building Event.parse = some RuntimeState.parse_response
transition RuntimeState.building Event.bind = some RuntimeState.bind_response
transition RuntimeState.building Event.describe = some RuntimeState.describe_response
transition RuntimeState.building Event.execute = some RuntimeState.execute_response
transition RuntimeState.building Event.close = some RuntimeState.close_response
transition RuntimeState.building Event.flush = some RuntimeState.building
transition RuntimeState.building Event.sync = some RuntimeState.sync_response
transition RuntimeState.parse_response Event.complete = some RuntimeState.building
transition RuntimeState.parse_response Event.error = some RuntimeState.extended_error
transition RuntimeState.bind_response Event.complete = some RuntimeState.building
transition RuntimeState.bind_response Event.error = some RuntimeState.extended_error
transition RuntimeState.describe_response Event.parameter_description =
    some RuntimeState.describe_response
transition RuntimeState.describe_response Event.row_description = some RuntimeState.building
transition RuntimeState.describe_response Event.no_data = some RuntimeState.building
transition RuntimeState.describe_response Event.error = some RuntimeState.extended_error
transition RuntimeState.execute_response Event.continue = some RuntimeState.execute_response
transition RuntimeState.execute_response Event.copy_in = some RuntimeState.extended_copy_in
transition RuntimeState.execute_response Event.copy_out = some RuntimeState.extended_copy_out
transition RuntimeState.execute_response Event.copy_both = some RuntimeState.extended_copy_both
transition RuntimeState.execute_response Event.command_complete = some RuntimeState.building
transition RuntimeState.execute_response Event.portal_suspended = some RuntimeState.building
transition RuntimeState.execute_response Event.error = some RuntimeState.extended_error
transition RuntimeState.close_response Event.complete = some RuntimeState.building
transition RuntimeState.close_response Event.error = some RuntimeState.extended_error
transition RuntimeState.extended_error Event.discard = some RuntimeState.extended_error
transition RuntimeState.extended_error Event.sync = some RuntimeState.sync_response
transition RuntimeState.sync_response Event.ready = some RuntimeState.ready
transition RuntimeState.function_response Event.result = some RuntimeState.function_ready
transition RuntimeState.function_response Event.error = some RuntimeState.function_ready
transition RuntimeState.function_ready Event.ready = some RuntimeState.ready
transition RuntimeState.simple_copy_in Event.payload = some RuntimeState.simple_copy_in
transition RuntimeState.simple_copy_in Event.done = some RuntimeState.simple_copy_in_done
transition RuntimeState.simple_copy_in Event.fail = some RuntimeState.simple_copy_in_failed
transition RuntimeState.simple_copy_in_done Event.command_complete =
    some RuntimeState.simple_copy_ready
transition RuntimeState.simple_copy_in_done Event.error = some RuntimeState.simple_copy_ready
transition RuntimeState.simple_copy_in_failed Event.error = some RuntimeState.simple_copy_ready
transition RuntimeState.simple_copy_out Event.payload = some RuntimeState.simple_copy_out
transition RuntimeState.simple_copy_out Event.done = some RuntimeState.simple_copy_out_done
transition RuntimeState.simple_copy_out Event.error = some RuntimeState.simple_copy_ready
transition RuntimeState.simple_copy_out_done Event.command_complete =
    some RuntimeState.simple_copy_ready
transition RuntimeState.simple_copy_ready Event.ready = some RuntimeState.ready
transition RuntimeState.extended_copy_in Event.payload = some RuntimeState.extended_copy_in
transition RuntimeState.extended_copy_in Event.done = some RuntimeState.extended_copy_in_done
transition RuntimeState.extended_copy_in Event.fail = some RuntimeState.extended_copy_in_failed
transition RuntimeState.extended_copy_in_done Event.command_complete = some RuntimeState.building
transition RuntimeState.extended_copy_in_done Event.error = some RuntimeState.extended_error
transition RuntimeState.extended_copy_in_failed Event.error = some RuntimeState.extended_error
transition RuntimeState.extended_copy_out Event.payload = some RuntimeState.extended_copy_out
transition RuntimeState.extended_copy_out Event.done = some RuntimeState.extended_copy_out_done
transition RuntimeState.extended_copy_out Event.error = some RuntimeState.extended_error
transition RuntimeState.extended_copy_out_done Event.command_complete = some RuntimeState.building
transition RuntimeState.simple_copy_both Event.send_data = some RuntimeState.simple_copy_both
transition RuntimeState.simple_copy_both Event.receive_data = some RuntimeState.simple_copy_both
transition RuntimeState.simple_copy_both Event.send_done =
    some RuntimeState.simple_copy_both_server_done
transition RuntimeState.simple_copy_both Event.receive_done =
    some RuntimeState.simple_copy_both_client_done
transition RuntimeState.simple_copy_both Event.fail = some RuntimeState.simple_copy_both_failed
transition RuntimeState.simple_copy_both Event.error = some RuntimeState.simple_copy_ready
transition RuntimeState.simple_copy_both_client_done Event.send_data =
    some RuntimeState.simple_copy_both_client_done
transition RuntimeState.simple_copy_both_client_done Event.send_done =
    some RuntimeState.simple_copy_both_done
transition RuntimeState.simple_copy_both_client_done Event.error =
    some RuntimeState.simple_copy_ready
transition RuntimeState.simple_copy_both_server_done Event.receive_data =
    some RuntimeState.simple_copy_both_server_done
transition RuntimeState.simple_copy_both_server_done Event.receive_done =
    some RuntimeState.simple_copy_both_done
transition RuntimeState.simple_copy_both_server_done Event.fail =
    some RuntimeState.simple_copy_both_failed
transition RuntimeState.simple_copy_both_done Event.command_complete =
    some RuntimeState.simple_copy_ready
transition RuntimeState.simple_copy_both_failed Event.error = some RuntimeState.simple_copy_ready
transition RuntimeState.extended_copy_both Event.send_data = some RuntimeState.extended_copy_both
transition RuntimeState.extended_copy_both Event.receive_data = some RuntimeState.extended_copy_both
transition RuntimeState.extended_copy_both Event.send_done =
    some RuntimeState.extended_copy_both_server_done
transition RuntimeState.extended_copy_both Event.receive_done =
    some RuntimeState.extended_copy_both_client_done
transition RuntimeState.extended_copy_both Event.fail = some RuntimeState.extended_copy_both_failed
transition RuntimeState.extended_copy_both Event.error = some RuntimeState.extended_error
transition RuntimeState.extended_copy_both_client_done Event.send_data =
    some RuntimeState.extended_copy_both_client_done
transition RuntimeState.extended_copy_both_client_done Event.send_done =
    some RuntimeState.extended_copy_both_done
transition RuntimeState.extended_copy_both_client_done Event.error =
    some RuntimeState.extended_error
transition RuntimeState.extended_copy_both_server_done Event.receive_data =
    some RuntimeState.extended_copy_both_server_done
transition RuntimeState.extended_copy_both_server_done Event.receive_done =
    some RuntimeState.extended_copy_both_done
transition RuntimeState.extended_copy_both_server_done Event.fail =
    some RuntimeState.extended_copy_both_failed
transition RuntimeState.extended_copy_both_done Event.command_complete = some RuntimeState.building
transition RuntimeState.extended_copy_both_failed Event.error = some RuntimeState.extended_error
transition _ _ = none
