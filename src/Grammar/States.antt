-- ===== src/Grammar/States.antt =====
-- src/grammar.rs, `protocol! { pub mod backend }`: the phases and the events of the backend role.
-- The event `Data` is `payload` here.

pub data RuntimeState : Type 0 where
  ready simple simple_error building parse_response bind_response : RuntimeState
  describe_response execute_response close_response extended_error : RuntimeState
  sync_response function_response function_ready simple_copy_in : RuntimeState
  simple_copy_in_done simple_copy_in_failed simple_copy_out : RuntimeState
  simple_copy_out_done simple_copy_ready extended_copy_in extended_copy_in_done : RuntimeState
  extended_copy_in_failed extended_copy_out extended_copy_out_done : RuntimeState
  simple_copy_both simple_copy_both_client_done simple_copy_both_server_done : RuntimeState
  simple_copy_both_done simple_copy_both_failed extended_copy_both : RuntimeState
  extended_copy_both_client_done extended_copy_both_server_done : RuntimeState
  extended_copy_both_done extended_copy_both_failed terminated : RuntimeState

pub data Event : Type 0 where
  query parse bind describe execute close function_call terminate continue : Event
  copy_in copy_out copy_both ready error flush sync complete : Event
  parameter_description row_description no_data command_complete : Event
  portal_suspended discard result payload done fail send_data receive_data : Event
  send_done receive_done : Event
