-- ===== src/Demux.antt =====
-- src/demux.rs: asynchronous backend messages, taken out of the session's stream.
pub mod Route
pub mod Events
use pg_proto.Base.{Bool, true, false}
use pg_proto.Codec.Backend.{BackendMessage}

unfoldable pub is_asynchronous : BackendMessage → Bool
is_asynchronous (BackendMessage.notice_response _) = true
is_asynchronous (BackendMessage.parameter_status _ _) = true
is_asynchronous (BackendMessage.notification_response _ _ _) = true
is_asynchronous (BackendMessage.backend_key_data _ _) = true
is_asynchronous _ = false
