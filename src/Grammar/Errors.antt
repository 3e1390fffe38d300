-- ===== src/Grammar/Errors.antt =====
-- src/grammar.rs: the rows for an ErrorResponse.
use pg_proto.Base.{Bool, true, false, some, is_some, ◌≡◌, refl, arith}
use pg_proto.Codec.Backend.{BackendMessage, DiagnosticResponse}
use pg_proto.Grammar.States.{RuntimeState, Event}
use pg_proto.Grammar.Internal.{project_internal}
use pg_proto.Grammar.Transitions.{transition}

abbrev pub is_ready_for_query : BackendMessage → Bool
is_ready_for_query (BackendMessage.ready_for_query _) = true
is_ready_for_query _ = false

abbrev pub is_command_complete : BackendMessage → Bool
is_command_complete (BackendMessage.command_complete _) = true
is_command_complete _ = false

-- The phases in which an operation of the extended query protocol is answered.
abbrev pub is_extended_phase : RuntimeState → Bool
is_extended_phase RuntimeState.parse_response = true
is_extended_phase RuntimeState.bind_response = true
is_extended_phase RuntimeState.describe_response = true
is_extended_phase RuntimeState.execute_response = true
is_extended_phase RuntimeState.close_response = true
is_extended_phase RuntimeState.extended_copy_in_done = true
is_extended_phase RuntimeState.extended_copy_in_failed = true
is_extended_phase RuntimeState.extended_copy_out = true
is_extended_phase RuntimeState.extended_copy_both = true
is_extended_phase RuntimeState.extended_copy_both_client_done = true
is_extended_phase RuntimeState.extended_copy_both_failed = true
is_extended_phase _ = false

-- In the extended query protocol the rest is discarded until a Sync; otherwise the backend may send
-- a ReadyForQuery, and nothing else.
abbrev pub Recovers : Bool → RuntimeState → Type 0
Recovers true t = t ≡ RuntimeState.extended_error
Recovers false t = (m : BackendMessage) → is_some (project_internal t m) ≡ is_ready_for_query m

-- An ErrorResponse has a row in the phase `s`, to a phase that recovers from it.
abbrev pub MayFail : RuntimeState → DiagnosticResponse → Type 0
MayFail s r =
    (e : Event) × (t : RuntimeState) × (project_internal s (BackendMessage.error_response r)
      ≡ some e)
    × (transition s e ≡ some t)
    × Recovers (is_extended_phase s) t

ready_after_error : Recovers false RuntimeState.simple_error
unfolding project_internal
ready_after_error m = ground arith

ready_after_call : Recovers false RuntimeState.function_ready
unfolding project_internal
ready_after_call m = ground arith

ready_after_copy : Recovers false RuntimeState.simple_copy_ready
unfolding project_internal
ready_after_copy m = ground arith

-- A phase in which the backend may send some message other than ReadyForQuery and CommandComplete
-- has a row for an ErrorResponse. Where an operation of the extended query protocol is answered, the
-- row leads to ExtendedError; elsewhere it leads to a phase in which the backend may send a
-- ReadyForQuery and nothing else.
pub project_internal-MayFail :
    (s : RuntimeState) (m : BackendMessage) (r : DiagnosticResponse)
    → is_some (project_internal s m) ≡ true
    → is_ready_for_query m ≡ false
    → is_command_complete m ≡ false
    → MayFail s r
unfolding project_internal transition
project_internal-MayFail RuntimeState.simple m r h k l =
    (Event.error, RuntimeState.simple_error, refl, refl, ready_after_error)
project_internal-MayFail RuntimeState.parse_response m r h k l =
    (Event.error, RuntimeState.extended_error, refl, refl, refl)
project_internal-MayFail RuntimeState.bind_response m r h k l =
    (Event.error, RuntimeState.extended_error, refl, refl, refl)
project_internal-MayFail RuntimeState.describe_response m r h k l =
    (Event.error, RuntimeState.extended_error, refl, refl, refl)
project_internal-MayFail RuntimeState.execute_response m r h k l =
    (Event.error, RuntimeState.extended_error, refl, refl, refl)
project_internal-MayFail RuntimeState.close_response m r h k l =
    (Event.error, RuntimeState.extended_error, refl, refl, refl)
project_internal-MayFail RuntimeState.function_response m r h k l =
    (Event.error, RuntimeState.function_ready, refl, refl, ready_after_call)
project_internal-MayFail RuntimeState.simple_copy_in_failed m r h k l =
    (Event.error, RuntimeState.simple_copy_ready, refl, refl, ready_after_copy)
project_internal-MayFail RuntimeState.simple_copy_in_done m r h k l =
    (Event.error, RuntimeState.simple_copy_ready, refl, refl, ready_after_copy)
project_internal-MayFail RuntimeState.simple_copy_out m r h k l =
    (Event.error, RuntimeState.simple_copy_ready, refl, refl, ready_after_copy)
project_internal-MayFail RuntimeState.simple_copy_both m r h k l =
    (Event.error, RuntimeState.simple_copy_ready, refl, refl, ready_after_copy)
project_internal-MayFail RuntimeState.simple_copy_both_client_done m r h k l =
    (Event.error, RuntimeState.simple_copy_ready, refl, refl, ready_after_copy)
project_internal-MayFail RuntimeState.simple_copy_both_failed m r h k l =
    (Event.error, RuntimeState.simple_copy_ready, refl, refl, ready_after_copy)
project_internal-MayFail RuntimeState.extended_copy_in_done m r h k l =
    (Event.error, RuntimeState.extended_error, refl, refl, refl)
project_internal-MayFail RuntimeState.extended_copy_in_failed m r h k l =
    (Event.error, RuntimeState.extended_error, refl, refl, refl)
project_internal-MayFail RuntimeState.extended_copy_out m r h k l =
    (Event.error, RuntimeState.extended_error, refl, refl, refl)
project_internal-MayFail RuntimeState.extended_copy_both m r h k l =
    (Event.error, RuntimeState.extended_error, refl, refl, refl)
project_internal-MayFail RuntimeState.extended_copy_both_client_done m r h k l =
    (Event.error, RuntimeState.extended_error, refl, refl, refl)
project_internal-MayFail RuntimeState.extended_copy_both_failed m r h k l =
    (Event.error, RuntimeState.extended_error, refl, refl, refl)
project_internal-MayFail _ m r h k l = absurd (ground arith)
