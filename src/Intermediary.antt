-- ===== src/Intermediary.antt =====
-- src/intermediary_component.rs: a connection between a client and PostgreSQL, the state that its
-- backend direction uses, and what is asked of the application and of the transports.
pub mod Forwarding
pub mod Calls
pub mod Invariant
pub mod Steps
pub mod Answers
pub mod Safety
pub mod Flush
pub mod Room
pub mod Forward
pub mod Runs
use pg_proto.Base.{
  ℕ, ◌+◌, Bool, true, false, ◌||◌, ◌==◌, if◌then◌else◌, Option, none, some, List, [], ◌∷◌, IoError,
}
use pg_proto.Codec.Backend.{BackendMessage}
use pg_proto.Grammar.{RuntimeState, Event}
use pg_proto.Pipeline.{Pipeline, BackendProjectionError, BackendSequenceError}
use pg_proto.BackendHold.{BackendHold}

pub data BackendMiddlewareOutput : Type 0 where
  forward suppress : BackendMessage → BackendMiddlewareOutput
  expand : List BackendMessage → BackendMiddlewareOutput
  hold : BackendMiddlewareOutput

pub data BackendBatchOutput : Type 0 where
  keep_holding : BackendBatchOutput
  replace_one_to_one : List BackendMessage → BackendBatchOutput

pub data BackendFlushReason : Type 0 where
  capacity protocol_barrier explicit teardown : BackendFlushReason

pub record BackendHoldLimits : Type 0 where
  pub max_messages : ℕ
  pub max_bytes : ℕ

-- `BackendHoldLimits::new`, where `none` is the error.
unfoldable pub limits_of : ℕ → ℕ → Option BackendHoldLimits
limits_of max_messages max_bytes =
    if max_messages == 0 || max_bytes == 0
    then none
    else some (record { max_messages = max_messages; max_bytes = max_bytes })

-- `PendingLocalResponses`: an operation that the application answers, and the answers left.
abbrev pub PendingLocalResponses : Type 0
PendingLocalResponses = ℕ × List BackendMessage

pub data BackendForwarding : Type 0 where
  forwarded suppressed : BackendMessage → BackendForwarding
  expanded : BackendMessage → List BackendMessage → BackendForwarding
  held : BackendForwarding

pub data BackendBatchForwarding : Type 0 where
  kept empty : BackendBatchForwarding
  released : List BackendMessage → BackendBatchForwarding

-- The errors that the backend direction returns; an error of the application or of a transport
-- carries nothing here.
pub data ForwardError : Type 0 where
  middleware transport : ForwardError
  io : IoError → ForwardError
  backend : BackendProjectionError → ForwardError
  deferred empty_expansion backend_holding_disabled : BackendMessage → ForwardError
  backend_hold_capacity backend_hold_refused : ForwardError
  backend_batch : BackendSequenceError → List BackendMessage → ForwardError

-- What this direction calls: the middleware of the application, and the cores of the two roles
-- (`intercept_backend`, `send_wire_raw`, `receive_wire_raw`) with their handlers and transports. They
-- are arbitrary functions on a state `E` of their own. `none` is an error of theirs, and so is
-- `false`.
pub record Environment (E : Type 0) : Type 0 where
  pub intercept_upstream : E → BackendMessage → E × BackendMessage
  pub intercept_downstream : E → BackendMessage → E × BackendMessage
  pub backend_operation : E → Option ℕ → BackendMessage → E × Option BackendMiddlewareOutput
  pub flush_backend_operations :
      E
      → List BackendMessage
      → ℕ
      → List (Option ℕ)
      → BackendFlushReason
      → E × Option BackendBatchOutput
  pub observe_transition : E → RuntimeState × Event → Option ℕ → E
  pub send_wire_raw : E → BackendMessage → E × Bool
  pub receive_wire_raw : E → E × Option BackendMessage

pub record Connection (E : Type 0) : Type 0 where
  pub environment : E
  pub pipeline : Pipeline
  pub backend_hold : BackendHold
  pub backend_hold_limits : Option BackendHoldLimits
  pub pending_local : List PendingLocalResponses

-- How a call ends: with a value, an error or a panic.
pub data Ending (A : Type 0) : Type 0 where
  value : A → Ending A
  failed : ForwardError → Ending A
  panics : Ending A

abbrev pub Call : Type 0 → Type 0 → Type 0
Call E A = Connection E → Connection E × Ending A

abbrev pub continue_with :
    {E A B : Type 0} → Connection E × Ending A → (A → Call E B) → Connection E × Ending B
continue_with (c, value a) next = next a c
continue_with (c, failed e) next = (c, failed e)
continue_with (c, panics) next = (c, panics)

infixl 5 ◌>>=◌ ◌>>◌
-- The `?` and the `await` of the source.
abbrev pub ◌>>=◌ : {E A B : Type 0} → Call E A → (A → Call E B) → Call E B
(first >>= next) c = continue_with (first c) next

abbrev pub ◌>>◌ : {E B : Type 0} → Call E (Unit {0}) → Call E B → Call E B
first >> second = first >>= λ done. second

abbrev pub pure : {E A : Type 0} → A → Call E A
pure a c = (c, value a)

abbrev pub fail : {E A : Type 0} → ForwardError → Call E A
fail e c = (c, failed e)

abbrev pub panic : {E A : Type 0} → Call E A
panic c = (c, panics)
