-- ===== src/Grammar/External.antt =====
-- src/grammar.rs, the messages by which the peer, the frontend, advances the protocol.
use pg_proto.Base.{Option, none, some}
use pg_proto.Codec.Frontend.{FrontendMessage}
use pg_proto.Grammar.States.{RuntimeState, Event}

unfoldable pub project_external : RuntimeState → FrontendMessage → Option Event
project_external RuntimeState.ready (FrontendMessage.query _) = some Event.query
project_external RuntimeState.ready (FrontendMessage.parse _) = some Event.parse
project_external RuntimeState.ready (FrontendMessage.bind _) = some Event.bind
project_external RuntimeState.ready (FrontendMessage.describe _) = some Event.describe
project_external RuntimeState.ready (FrontendMessage.execute _) = some Event.execute
project_external RuntimeState.ready (FrontendMessage.close _) = some Event.close
project_external RuntimeState.ready (FrontendMessage.function_call _) = some Event.function_call
project_external RuntimeState.ready FrontendMessage.terminate = some Event.terminate
project_external RuntimeState.building (FrontendMessage.parse _) = some Event.parse
project_external RuntimeState.building (FrontendMessage.bind _) = some Event.bind
project_external RuntimeState.building (FrontendMessage.describe _) = some Event.describe
project_external RuntimeState.building (FrontendMessage.execute _) = some Event.execute
project_external RuntimeState.building (FrontendMessage.close _) = some Event.close
project_external RuntimeState.building FrontendMessage.flush = some Event.flush
project_external RuntimeState.building FrontendMessage.sync = some Event.sync
project_external RuntimeState.extended_error (FrontendMessage.parse _) = some Event.discard
project_external RuntimeState.extended_error (FrontendMessage.bind _) = some Event.discard
project_external RuntimeState.extended_error (FrontendMessage.describe _) = some Event.discard
project_external RuntimeState.extended_error (FrontendMessage.execute _) = some Event.discard
project_external RuntimeState.extended_error (FrontendMessage.close _) = some Event.discard
project_external RuntimeState.extended_error FrontendMessage.flush = some Event.discard
project_external RuntimeState.extended_error (FrontendMessage.query _) = some Event.discard
project_external RuntimeState.extended_error (FrontendMessage.function_call _) = some Event.discard
project_external RuntimeState.extended_error FrontendMessage.terminate = some Event.discard
project_external RuntimeState.extended_error (FrontendMessage.copy_data _) = some Event.discard
project_external RuntimeState.extended_error FrontendMessage.copy_done = some Event.discard
project_external RuntimeState.extended_error (FrontendMessage.copy_fail _) = some Event.discard
project_external RuntimeState.extended_error (FrontendMessage.password_response _) =
    some Event.discard
project_external RuntimeState.extended_error FrontendMessage.sync = some Event.sync
project_external RuntimeState.simple_copy_in (FrontendMessage.copy_data _) = some Event.payload
project_external RuntimeState.simple_copy_in FrontendMessage.copy_done = some Event.done
project_external RuntimeState.simple_copy_in (FrontendMessage.copy_fail _) = some Event.fail
project_external RuntimeState.extended_copy_in (FrontendMessage.copy_data _) = some Event.payload
project_external RuntimeState.extended_copy_in FrontendMessage.copy_done = some Event.done
project_external RuntimeState.extended_copy_in (FrontendMessage.copy_fail _) = some Event.fail
project_external RuntimeState.simple_copy_both (FrontendMessage.copy_data _) =
    some Event.receive_data
project_external RuntimeState.simple_copy_both FrontendMessage.copy_done = some Event.receive_done
project_external RuntimeState.simple_copy_both (FrontendMessage.copy_fail _) = some Event.fail
project_external RuntimeState.simple_copy_both_server_done (FrontendMessage.copy_data _) =
    some Event.receive_data
project_external RuntimeState.simple_copy_both_server_done FrontendMessage.copy_done =
    some Event.receive_done
project_external RuntimeState.simple_copy_both_server_done (FrontendMessage.copy_fail _) =
    some Event.fail
project_external RuntimeState.extended_copy_both (FrontendMessage.copy_data _) =
    some Event.receive_data
project_external RuntimeState.extended_copy_both FrontendMessage.copy_done = some Event.receive_done
project_external RuntimeState.extended_copy_both (FrontendMessage.copy_fail _) = some Event.fail
project_external RuntimeState.extended_copy_both_server_done (FrontendMessage.copy_data _) =
    some Event.receive_data
project_external RuntimeState.extended_copy_both_server_done FrontendMessage.copy_done =
    some Event.receive_done
project_external RuntimeState.extended_copy_both_server_done (FrontendMessage.copy_fail _) =
    some Event.fail
project_external _ _ = none
