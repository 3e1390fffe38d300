-- ===== src/Tests/Demux.antt =====
-- Concrete messages through the demultiplexer.
use pg_proto.Base.{[], ◌∷◌, ◌≡◌, some, arith}
use mathlib.Core.Option
use pg_proto.Codec.Backend.{BackendMessage}
use pg_proto.Demux.{is_asynchronous}
use pg_proto.Demux.Route.{default, route, into_backend_message}
use pg_proto.Demux.Events.{
  IsConsistent, default-IsConsistent, route-IsConsistent, route-into_backend_message,
}

abbrev zone : BackendMessage
zone = BackendMessage.parameter_status (b'T' ∷ b'Z' ∷ []) (b'Z' ∷ [])

route-IsConsistent_example : IsConsistent (route default zone).0
unfolding default
route-IsConsistent_example = route-IsConsistent default zone default-IsConsistent (omega arith)

route-into_backend_message_example :
    Option.map into_backend_message (route default (BackendMessage.command_complete [])).1
    ≡ some (BackendMessage.command_complete [])
unfolding is_asynchronous
route-into_backend_message_example =
    route-into_backend_message default (BackendMessage.command_complete [])
