-- ===== src/Grammar/Paths/Messages.antt =====
-- src/grammar.rs: a message for each of the rows that the runs take.
use pg_proto.Base.{pos, []}
use pg_proto.Codec.Frontend.{FrontendMessage, DescribeTarget}
use pg_proto.Codec.Backend.{BackendMessage, CopyResponse, TransactionStatus}

abbrev pub copying : CopyResponse
copying = record { overall_format = 0; column_formats = [] }

abbrev pub failed : BackendMessage
failed = BackendMessage.error_response (record { fields = [] })

abbrev pub idle_again : BackendMessage
idle_again = BackendMessage.ready_for_query TransactionStatus.idle

abbrev pub completed : BackendMessage
completed = BackendMessage.command_complete []

abbrev pub execute_any : FrontendMessage
execute_any = FrontendMessage.execute (record { portal = []; max_rows = pos 0 })

abbrev pub bind_any : FrontendMessage
bind_any = FrontendMessage.bind (record {
  portal = [];
  statement = [];
  parameter_formats = [];
  parameters = [];
  result_formats = [];
})

abbrev pub describe_any : FrontendMessage
describe_any = FrontendMessage.describe (record { target = DescribeTarget.portal; name = [] })

abbrev pub close_any : FrontendMessage
close_any = FrontendMessage.close (record { target = DescribeTarget.portal; name = [] })

abbrev pub call_any : FrontendMessage
call_any =
    FrontendMessage.function_call
      (record { function_oid = 0; argument_formats = []; arguments = []; result_format = pos 0 })
