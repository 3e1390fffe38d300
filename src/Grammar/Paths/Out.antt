-- ===== src/Grammar/Paths/Out.antt =====
-- src/grammar.rs: a run from Ready to each phase.
use pg_proto.Base.{[], refl}
use pg_proto.Codec.Frontend.{FrontendMessage}
use pg_proto.Codec.Backend.{BackendMessage}
use pg_proto.Grammar.States.{RuntimeState}
use pg_proto.Grammar.Internal.{project_internal}
use pg_proto.Grammar.External.{project_external}
use pg_proto.Grammar.Transitions.{transition}
use pg_proto.Grammar.Paths.Steps.{Leads, here, ◌then◌, hears, says}
use pg_proto.Grammar.Paths.Messages.{
  copying, failed, execute_any, bind_any, describe_any, close_any, call_any,
}

ready_simple : Leads RuntimeState.ready RuntimeState.simple
unfolding project_external transition
ready_simple = hears RuntimeState.ready (FrontendMessage.query []) refl refl

ready_execute : Leads RuntimeState.ready RuntimeState.execute_response
unfolding project_external transition
ready_execute = hears RuntimeState.ready execute_any refl refl

ready_parse : Leads RuntimeState.ready RuntimeState.parse_response
unfolding project_external transition
ready_parse =
    hears RuntimeState.ready
      (FrontendMessage.parse (record { statement = []; query = []; parameter_types = [] })) refl
      refl

ready_building : Leads RuntimeState.ready RuntimeState.building
unfolding project_internal transition
ready_building =
    ready_parse then says RuntimeState.parse_response BackendMessage.parse_complete refl refl

simple_copy_in : Leads RuntimeState.ready RuntimeState.simple_copy_in
unfolding project_internal transition
simple_copy_in =
    ready_simple then says RuntimeState.simple (BackendMessage.copy_in_response copying) refl refl

simple_copy_out : Leads RuntimeState.ready RuntimeState.simple_copy_out
unfolding project_internal transition
simple_copy_out =
    ready_simple then says RuntimeState.simple (BackendMessage.copy_out_response copying) refl refl

simple_copy_both : Leads RuntimeState.ready RuntimeState.simple_copy_both
unfolding project_internal transition
simple_copy_both =
    ready_simple then says RuntimeState.simple (BackendMessage.copy_both_response copying) refl refl

extended_copy_in : Leads RuntimeState.ready RuntimeState.extended_copy_in
unfolding project_internal transition
extended_copy_in =
    ready_execute
    then says RuntimeState.execute_response (BackendMessage.copy_in_response copying) refl refl

extended_copy_out : Leads RuntimeState.ready RuntimeState.extended_copy_out
unfolding project_internal transition
extended_copy_out =
    ready_execute
    then says RuntimeState.execute_response (BackendMessage.copy_out_response copying) refl refl

extended_copy_both : Leads RuntimeState.ready RuntimeState.extended_copy_both
unfolding project_internal transition
extended_copy_both =
    ready_execute
    then says RuntimeState.execute_response (BackendMessage.copy_both_response copying) refl refl

pub from_ready : (s : RuntimeState) → Leads RuntimeState.ready s
unfolding project_internal project_external transition
from_ready RuntimeState.ready = here
from_ready RuntimeState.simple = ready_simple
from_ready RuntimeState.simple_error = ready_simple then says RuntimeState.simple failed refl refl
from_ready RuntimeState.building = ready_building
from_ready RuntimeState.parse_response = ready_parse
from_ready RuntimeState.bind_response = hears RuntimeState.ready bind_any refl refl
from_ready RuntimeState.describe_response = hears RuntimeState.ready describe_any refl refl
from_ready RuntimeState.execute_response = ready_execute
from_ready RuntimeState.close_response = hears RuntimeState.ready close_any refl refl
from_ready RuntimeState.extended_error =
    ready_parse then says RuntimeState.parse_response failed refl refl
from_ready RuntimeState.sync_response =
    ready_building then hears RuntimeState.building FrontendMessage.sync refl refl
from_ready RuntimeState.function_response = hears RuntimeState.ready call_any refl refl
from_ready RuntimeState.function_ready =
    hears RuntimeState.ready call_any refl refl
    then says RuntimeState.function_response failed refl refl
from_ready RuntimeState.terminated = hears RuntimeState.ready FrontendMessage.terminate refl refl
from_ready RuntimeState.simple_copy_in = simple_copy_in
from_ready RuntimeState.simple_copy_out = simple_copy_out
from_ready RuntimeState.simple_copy_both = simple_copy_both
from_ready RuntimeState.simple_copy_in_done =
    simple_copy_in then hears RuntimeState.simple_copy_in FrontendMessage.copy_done refl refl
from_ready RuntimeState.simple_copy_in_failed =
    simple_copy_in then hears RuntimeState.simple_copy_in (FrontendMessage.copy_fail []) refl refl
from_ready RuntimeState.simple_copy_out_done =
    simple_copy_out then says RuntimeState.simple_copy_out BackendMessage.copy_done refl refl
from_ready RuntimeState.simple_copy_both_client_done =
    simple_copy_both then hears RuntimeState.simple_copy_both FrontendMessage.copy_done refl refl
from_ready RuntimeState.simple_copy_both_server_done =
    simple_copy_both then says RuntimeState.simple_copy_both BackendMessage.copy_done refl refl
from_ready RuntimeState.simple_copy_both_failed =
    simple_copy_both
    then hears RuntimeState.simple_copy_both (FrontendMessage.copy_fail []) refl refl
from_ready RuntimeState.simple_copy_both_done =
    simple_copy_both
    then says RuntimeState.simple_copy_both BackendMessage.copy_done refl refl
    then hears RuntimeState.simple_copy_both_server_done FrontendMessage.copy_done refl refl
from_ready RuntimeState.extended_copy_in = extended_copy_in
from_ready RuntimeState.extended_copy_out = extended_copy_out
from_ready RuntimeState.extended_copy_both = extended_copy_both
from_ready RuntimeState.extended_copy_in_done =
    extended_copy_in then hears RuntimeState.extended_copy_in FrontendMessage.copy_done refl refl
from_ready RuntimeState.extended_copy_in_failed =
    extended_copy_in
    then hears RuntimeState.extended_copy_in (FrontendMessage.copy_fail []) refl refl
from_ready RuntimeState.extended_copy_out_done =
    extended_copy_out then says RuntimeState.extended_copy_out BackendMessage.copy_done refl refl
from_ready RuntimeState.extended_copy_both_client_done =
    extended_copy_both
    then hears RuntimeState.extended_copy_both FrontendMessage.copy_done refl refl
from_ready RuntimeState.extended_copy_both_server_done =
    extended_copy_both then says RuntimeState.extended_copy_both BackendMessage.copy_done refl refl
from_ready RuntimeState.extended_copy_both_failed =
    extended_copy_both
    then hears RuntimeState.extended_copy_both (FrontendMessage.copy_fail []) refl refl
from_ready RuntimeState.extended_copy_both_done =
    extended_copy_both
    then says RuntimeState.extended_copy_both BackendMessage.copy_done refl refl
    then hears RuntimeState.extended_copy_both_server_done FrontendMessage.copy_done refl refl
from_ready RuntimeState.simple_copy_ready =
    simple_copy_out then says RuntimeState.simple_copy_out failed refl refl
