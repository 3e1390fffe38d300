-- ===== src/Demux/Route.antt =====
-- src/demux.rs: the state of `Demux` and `route`. A `BTreeMap` is the list of its entries in the
-- order of their keys.
use pg_proto.Base.{
  ℕ, ◌+◌, ◌-◌, ◌^◌, Bool, false, not, List, [], ◌∷◌, ◌++◌, Option, none, some, ltb, if◌then◌else◌,
  Bytes,
}
use pg_proto.OrderedMap.{Entries, insert, entries_eq}
use pg_proto.Codec.Backend.{BackendMessage, DiagnosticResponse, TransactionStatus}

pub record TaggedNotice : Type 0 where
  pub command : ℕ
  pub fields : DiagnosticResponse

pub record Notification : Type 0 where
  pub process_id : ℕ
  pub channel : Bytes
  pub payload : Bytes

pub record ParameterStatus : Type 0 where
  pub name : Bytes
  pub value : Bytes

pub data AsyncEvent : Type 0 where
  notice : TaggedNotice → AsyncEvent
  parameter_status : ParameterStatus → AsyncEvent
  notification : Notification → AsyncEvent

pub record OrderedAsyncEvent : Type 0 where
  pub sequence : ℕ
  pub command : ℕ
  pub event : AsyncEvent

pub record CancelKey : Type 0 where
  pub process_id : ℕ
  pub secret_key : Bytes

pub data SessionItem : Type 0 where
  message : BackendMessage → SessionItem
  ready_for_query : TransactionStatus → Bool → SessionItem
  command_complete : Bytes → ℕ → List TaggedNotice → SessionItem

abbrev pub into_backend_message : SessionItem → BackendMessage
into_backend_message (SessionItem.message m) = m
into_backend_message (SessionItem.ready_for_query status changed) =
    BackendMessage.ready_for_query status
into_backend_message (SessionItem.command_complete tag command notices) =
    BackendMessage.command_complete tag

pub record Demux : Type 0 where
  pub command : ℕ
  pub pending_notices : List TaggedNotice
  pub notices : List TaggedNotice
  pub notifications : List Notification
  pub parameter_statuses : List ParameterStatus
  pub async_events : List OrderedAsyncEvent
  pub next_async_sequence : ℕ
  pub parameters : Entries
  pub startup_parameters : Option Entries
  pub parameters_changed : Bool
  pub cancel_key : Option CancelKey
  pub transaction_status : Option TransactionStatus

unfoldable pub default : Demux
default = record {
  command = 0;
  pending_notices = [];
  notices = [];
  notifications = [];
  parameter_statuses = [];
  async_events = [];
  next_async_sequence = 0;
  parameters = [];
  startup_parameters = none;
  parameters_changed = false;
  cancel_key = none;
  transaction_status = none;
}

-- `u64::saturating_add(1)`.
abbrev pub saturating_suc : ℕ → ℕ
saturating_suc n = if ltb n (2 ^ 64 - 1) then n + 1 else 2 ^ 64 - 1

unfoldable pub push_async : AsyncEvent → Demux → Demux
push_async event d = record d {
  next_async_sequence = saturating_suc d.next_async_sequence;
  async_events =
      d.async_events
      ++ record { sequence = d.next_async_sequence; command = d.command; event = event } ∷ [];
}

-- `self.parameters != *startup_parameters`, once there is a baseline.
abbrev pub changed_since : Option Entries → Entries → Bool → Bool
changed_since none parameters changed = changed
changed_since (some startup) parameters changed = not (entries_eq parameters startup)

abbrev pub baseline : Option Entries → Entries → Entries
baseline none parameters = parameters
baseline (some startup) parameters = startup

unfoldable pub route : Demux → BackendMessage → Demux × Option SessionItem
unfolding push_async insert entries_eq
route d (BackendMessage.notice_response fields) =
    let tagged : TaggedNotice = record { command = d.command; fields = fields } in
    (
      push_async (AsyncEvent.notice tagged) (record d {
        pending_notices = d.pending_notices ++ tagged ∷ [];
        notices = d.notices ++ tagged ∷ [];
      }),
      none,
    )
route d (BackendMessage.parameter_status name value) =
    let status : ParameterStatus = record { name = name; value = value } in
    let parameters = insert name value d.parameters in
    (
      record (push_async (AsyncEvent.parameter_status status) d) {
        parameters = parameters;
        parameter_statuses = d.parameter_statuses ++ status ∷ [];
        parameters_changed = changed_since d.startup_parameters parameters d.parameters_changed;
      },
      none,
    )
route d (BackendMessage.notification_response process_id channel payload) =
    let received : Notification = record {
      process_id = process_id;
      channel = channel;
      payload = payload;
    } in
    (
      push_async (AsyncEvent.notification received)
          (record d { notifications = d.notifications ++ received ∷ [] }),
      none,
    )
route d (BackendMessage.backend_key_data process_id secret_key) = (
  record d { cancel_key = some (record { process_id = process_id; secret_key = secret_key }) },
  some (SessionItem.message (BackendMessage.backend_key_data process_id secret_key)),
)
route d (BackendMessage.ready_for_query status) = (
  record d {
    transaction_status = some status;
    startup_parameters = some (baseline d.startup_parameters d.parameters);
  },
  some (SessionItem.ready_for_query status d.parameters_changed),
)
route d (BackendMessage.command_complete tag) = (
  record d { pending_notices = []; command = saturating_suc d.command },
  some (SessionItem.command_complete tag d.command d.pending_notices),
)
route d m = (d, some (SessionItem.message m))

abbrev front {ℓ} : {A : Type ℓ} → List A → Option A
front [] = none
front (x ∷ xs) = some x

abbrev behind {ℓ} : {A : Type ℓ} → List A → List A
behind [] = []
behind (x ∷ xs) = xs

unfoldable pub pop_notification : Demux → Demux × Option Notification
pop_notification d = (record d { notifications = behind d.notifications }, front d.notifications)

unfoldable pub pop_notice : Demux → Demux × Option TaggedNotice
pop_notice d = (record d { notices = behind d.notices }, front d.notices)

unfoldable pub pop_parameter_status : Demux → Demux × Option ParameterStatus
pop_parameter_status d =
    (record d { parameter_statuses = behind d.parameter_statuses }, front d.parameter_statuses)

unfoldable pub pop_async_event : Demux → Demux × Option OrderedAsyncEvent
pop_async_event d = (record d { async_events = behind d.async_events }, front d.async_events)
