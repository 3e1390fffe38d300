-- ===== src/Pipeline/Types.antt =====
-- src/pipeline.rs, the ledger and what its operations return. The `Notify` that wakes waiters is
-- left out: it is no part of the ledger's decisions.
use pg_proto.Base.{ℕ, ◌+◌, ◌-◌, ◌^◌, Bool, List, [], Option, none, some, ltb, if◌then◌else◌}
use pg_proto.Codec.Frontend.{FrontendMessage}
use pg_proto.Codec.Backend.{BackendMessage}
use pg_proto.Grammar.{RuntimeState, Event}

-- The summary of the projected frontend state.
pub data PipelineState : Type 0 where
  ready extended extended_error copy_in copy_out copy_both terminated : PipelineState

pub data RequestState : Type 0 where
  ready : RequestState
  extended : Bool → RequestState
  extended_error copy_in copy_out copy_both terminated : RequestState

abbrev pub public : RequestState → PipelineState
public RequestState.ready = PipelineState.ready
public (RequestState.extended bound) = PipelineState.extended
public RequestState.extended_error = PipelineState.extended_error
public RequestState.copy_in = PipelineState.copy_in
public RequestState.copy_out = PipelineState.copy_out
public RequestState.copy_both = PipelineState.copy_both
public RequestState.terminated = PipelineState.terminated

pub data Origin : Type 0 where
  forwarded local : Origin

pub data OperationKind : Type 0 where
  query function_call parse bind describe execute close : OperationKind
  flush sync copy_data copy_done copy_fail terminate : OperationKind

pub record Operation : Type 0 where
  pub id : ℕ
  pub kind : OperationKind
  pub origin : Origin
  pub discarded : Bool
  pub response_state : RuntimeState

pub record Pipeline : Type 0 where
  pub operation_limit : ℕ
  pub operations : List Operation
  pub request_state : RequestState
  pub response_state : Option PipelineState
  pub next_id : ℕ

unfoldable pub new : ℕ → Pipeline
new operation_limit = record {
  operation_limit = operation_limit;
  operations = [];
  request_state = RequestState.ready;
  response_state = none;
  next_id = 0;
}

abbrev pub state : Pipeline → PipelineState
state p = elim p.response_state [ none ↦ public p.request_state | some s ↦ s ]

-- `u64::saturating_add(1)`.
abbrev pub saturating_suc : ℕ → ℕ
saturating_suc n = if ltb n (2 ^ 64 - 1) then n + 1 else 2 ^ 64 - 1

pub data FrontendHandling : Type 0 where
  forward local : FrontendHandling

pub data FrontendAction : Type 0 where
  forward : ℕ → FrontendMessage → FrontendAction
  discard : ℕ → FrontendAction

pub data FrontendAdmission : Type 0 where
  immediate waiting : FrontendAction → FrontendAdmission

abbrev pub into_action : FrontendAdmission → FrontendAction
into_action (immediate a) = a
into_action (waiting a) = a

pub data FrontendProjectionError : Type 0 where
  capacity : FrontendMessage → FrontendProjectionError
  illegal : PipelineState → FrontendMessage → FrontendProjectionError

pub data FrontendPhase : Type 0 where
  ready building extended_error simple_copy_in extended_copy_in : FrontendPhase
  simple_copy_both extended_copy_both : FrontendPhase

-- `panicked` is the `unreachable!` or the `expect` of the source.
pub data Outcome {ℓ κ} (E : Type ℓ) (A : Type κ) : Type (ℓ ⊔ κ) where
  done : A → Outcome E A
  rejected : E → Outcome E A
  panicked : Outcome E A

pub data PreparedResponse : Type 0 where
  asynchronous : PreparedResponse
  emit : Operation → RuntimeState → PreparedResponse
  deferred illegal : PreparedResponse

pub data BackendAction : Type 0 where
  emit deferred : BackendMessage → BackendAction

pub record BackendProjectionError : Type 0 where
  pub state : PipelineState
  pub message : BackendMessage

pub data BackendSequenceError : Type 0 where
  cardinality : ℕ → ℕ → BackendSequenceError
  source replacement : BackendMessage → BackendSequenceError
  different_span : BackendSequenceError

-- A transition is named by its phase and its event.
pub record FrontendSequenceItem : Type 0 where
  pub transition_id : Option (RuntimeState × Event)
  pub admission : FrontendAdmission
