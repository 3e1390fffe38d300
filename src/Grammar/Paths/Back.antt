-- ===== src/Grammar/Paths/Back.antt =====
-- src/grammar.rs: a run from each phase that is not over back to Ready.
use pg_proto.Base.{◌≢◌, refl}
use pg_proto.Codec.Frontend.{FrontendMessage}
use pg_proto.Codec.Backend.{BackendMessage}
use pg_proto.Grammar.States.{RuntimeState}
use pg_proto.Grammar.Internal.{project_internal}
use pg_proto.Grammar.External.{project_external}
use pg_proto.Grammar.Transitions.{transition}
use pg_proto.Grammar.Paths.Steps.{Leads, here, ◌then◌, hears, says}
use pg_proto.Grammar.Paths.Messages.{failed, idle_again, completed}

building_ready : Leads RuntimeState.building RuntimeState.ready
unfolding project_internal project_external transition
building_ready =
    hears RuntimeState.building FrontendMessage.sync refl refl
    then says RuntimeState.sync_response idle_again refl refl

error_ready : Leads RuntimeState.extended_error RuntimeState.ready
unfolding project_internal project_external transition
error_ready =
    hears RuntimeState.extended_error FrontendMessage.sync refl refl
    then says RuntimeState.sync_response idle_again refl refl

copied_ready : Leads RuntimeState.simple_copy_ready RuntimeState.ready
unfolding project_internal transition
copied_ready = says RuntimeState.simple_copy_ready idle_again refl refl

pub to_ready : (s : RuntimeState) → s ≢ RuntimeState.terminated → Leads s RuntimeState.ready
unfolding project_internal project_external transition
to_ready RuntimeState.ready h = here
to_ready RuntimeState.simple h = says RuntimeState.simple idle_again refl refl
to_ready RuntimeState.simple_error h = says RuntimeState.simple_error idle_again refl refl
to_ready RuntimeState.building h = building_ready
to_ready RuntimeState.parse_response h =
    says RuntimeState.parse_response failed refl refl then error_ready
to_ready RuntimeState.bind_response h =
    says RuntimeState.bind_response BackendMessage.bind_complete refl refl then building_ready
to_ready RuntimeState.describe_response h =
    says RuntimeState.describe_response BackendMessage.no_data refl refl then building_ready
to_ready RuntimeState.execute_response h =
    says RuntimeState.execute_response completed refl refl then building_ready
to_ready RuntimeState.close_response h =
    says RuntimeState.close_response BackendMessage.close_complete refl refl then building_ready
to_ready RuntimeState.extended_error h = error_ready
to_ready RuntimeState.sync_response h = says RuntimeState.sync_response idle_again refl refl
to_ready RuntimeState.function_response h =
    says RuntimeState.function_response failed refl refl
    then says RuntimeState.function_ready idle_again refl refl
to_ready RuntimeState.function_ready h = says RuntimeState.function_ready idle_again refl refl
to_ready RuntimeState.simple_copy_ready h = copied_ready
to_ready RuntimeState.simple_copy_in h =
    hears RuntimeState.simple_copy_in FrontendMessage.copy_done refl refl
    then says RuntimeState.simple_copy_in_done completed refl refl
    then copied_ready
to_ready RuntimeState.simple_copy_in_done h =
    says RuntimeState.simple_copy_in_done completed refl refl then copied_ready
to_ready RuntimeState.simple_copy_in_failed h =
    says RuntimeState.simple_copy_in_failed failed refl refl then copied_ready
to_ready RuntimeState.simple_copy_out h =
    says RuntimeState.simple_copy_out BackendMessage.copy_done refl refl
    then says RuntimeState.simple_copy_out_done completed refl refl
    then copied_ready
to_ready RuntimeState.simple_copy_out_done h =
    says RuntimeState.simple_copy_out_done completed refl refl then copied_ready
to_ready RuntimeState.simple_copy_both h =
    says RuntimeState.simple_copy_both failed refl refl then copied_ready
to_ready RuntimeState.simple_copy_both_client_done h =
    says RuntimeState.simple_copy_both_client_done failed refl refl then copied_ready
to_ready RuntimeState.simple_copy_both_server_done h =
    hears RuntimeState.simple_copy_both_server_done FrontendMessage.copy_done refl refl
    then says RuntimeState.simple_copy_both_done completed refl refl
    then copied_ready
to_ready RuntimeState.simple_copy_both_done h =
    says RuntimeState.simple_copy_both_done completed refl refl then copied_ready
to_ready RuntimeState.simple_copy_both_failed h =
    says RuntimeState.simple_copy_both_failed failed refl refl then copied_ready
to_ready RuntimeState.extended_copy_in h =
    hears RuntimeState.extended_copy_in FrontendMessage.copy_done refl refl
    then says RuntimeState.extended_copy_in_done completed refl refl
    then building_ready
to_ready RuntimeState.extended_copy_in_done h =
    says RuntimeState.extended_copy_in_done completed refl refl then building_ready
to_ready RuntimeState.extended_copy_in_failed h =
    says RuntimeState.extended_copy_in_failed failed refl refl then error_ready
to_ready RuntimeState.extended_copy_out h =
    says RuntimeState.extended_copy_out BackendMessage.copy_done refl refl
    then says RuntimeState.extended_copy_out_done completed refl refl
    then building_ready
to_ready RuntimeState.extended_copy_out_done h =
    says RuntimeState.extended_copy_out_done completed refl refl then building_ready
to_ready RuntimeState.extended_copy_both h =
    says RuntimeState.extended_copy_both failed refl refl then error_ready
to_ready RuntimeState.extended_copy_both_client_done h =
    says RuntimeState.extended_copy_both_client_done failed refl refl then error_ready
to_ready RuntimeState.extended_copy_both_server_done h =
    hears RuntimeState.extended_copy_both_server_done FrontendMessage.copy_done refl refl
    then says RuntimeState.extended_copy_both_done completed refl refl
    then building_ready
to_ready RuntimeState.extended_copy_both_done h =
    says RuntimeState.extended_copy_both_done completed refl refl then building_ready
to_ready RuntimeState.extended_copy_both_failed h =
    says RuntimeState.extended_copy_both_failed failed refl refl then error_ready
to_ready RuntimeState.terminated h = absurd (h refl)
