-- ===== src/Tests/Pipeline.antt =====
-- Concrete ledgers.
use pg_proto.Base.{List, not, ◌↔◌}
use pg_proto.Base.{ℕ, ◌≤◌, false, [], ◌∷◌, ◌++◌, ◌≡◌, ◌≢◌, refl, none, length, arith, ◌⊎◌}
use pg_proto.Codec.Frontend.{FrontendMessage}
use pg_proto.Codec.Backend.{BackendMessage, TransactionStatus}
use pg_proto.Demux.{is_asynchronous}
use pg_proto.Grammar.{RuntimeState, Event, project_internal, project_external, transition}
use pg_proto.Grammar.Laws.{one_side_speaks}
use pg_proto.Grammar.Errors.{MayFail, project_internal-MayFail}
use pg_proto.Grammar.Paths.Steps.{Leads}
use pg_proto.Grammar.Paths.{Leads_iff}
use pg_proto.Pipeline.{
  Pipeline, Operation, OperationKind, RequestState, FrontendHandling, new, accept_frontend,
  accept_backend, try_emit_local, BackendAction, done, rejected, panicked, prepare_frontend,
  capacity, FrontendAction, into_action, response_is_terminal, accept_response, prepare_response,
  Origin,
}
use pg_proto.Pipeline.{
  waiting, prepare_with, prepare_on, prepare_at_head, commit_response, commit_at, commit_emit,
  pop_head, remove_inert_heads, response_copy_state, project_frontend, classify_frontend,
  frontend_phase, commit_frontend, commit_classified, advance_head, initial_response_state,
  retire_copy_sync, project_error, is_extended_kind, external_target, action_of, prepare_response,
  accept_response,
}
use pg_proto.Pipeline.Attribution.{FirstAnswers, backend_operation_id_iff}
use pg_proto.Pipeline.{backend_operation_id}
use pg_proto.Base.{some}
use pg_proto.Tests.{big_endian}
use pg_proto.Pipeline.{FrontendSequenceItem, immediate, prepare_frontend_sequence}
use pg_proto.Pipeline.Sequences.Steps.{Admits, AllReconstructable, FirstRefused}
use pg_proto.Pipeline.Sequences.{prepare_frontend_sequence_iff}
use pg_proto.Pipeline.Rows.{response_is_terminal_lem}
use pg_proto.Pipeline.Phases.{answers, is_final}
use pg_proto.Pipeline.Order.{
  LeavesInOrder, accept_frontend_order, accept_backend_order, try_emit_local_order,
}
use pg_proto.Pipeline.Emission.{
  IsBackendResult, accept_backend_emits, try_emit_local_emits, accept_backend_cases,
}
use pg_proto.Pipeline.Capacity.{length-accept_frontend}
use pg_proto.Pipeline.Deviations.{
  prepare_frontend-overfull, accept_frontend-copy_fail, accept_backend-empty_query,
}
use pg_proto.Pipeline.Invariant.{IsValid, ids}
use pg_proto.Pipeline.Runs.{Step, Run, Run-IsValid, Run-answer-ne-panicked, Run-request-ne-panicked}

abbrev operation : ℕ → OperationKind → Origin → RuntimeState → Operation
operation id kind origin s = record {
  id = id;
  kind = kind;
  origin = origin;
  discarded = false;
  response_state = s;
}

abbrev select : FrontendMessage
select = FrontendMessage.query (b'q' ∷ [])

abbrev ready : BackendMessage
ready = BackendMessage.ready_for_query TransactionStatus.idle

-- A query and its answer on a new ledger.
abbrev answered : Pipeline
answered = (accept_backend (accept_frontend (new 4) select FrontendHandling.forward).0 ready).0

answered-Run : Run 4 2 answered
answered-Run =
    Run.call (Run.call Run.start (Step.frontend (new 4) select FrontendHandling.forward))
      (Step.backend (accept_frontend (new 4) select FrontendHandling.forward).0 ready)

Run-IsValid_example : IsValid answered
Run-IsValid_example = Run-IsValid answered-Run (omega arith)

Run-answer-ne-panicked_example :
    ((accept_backend answered ready).1 ≢ panicked)
    × ((try_emit_local answered 0 ready).1 ≢ panicked)
Run-answer-ne-panicked_example = Run-answer-ne-panicked ready 0 answered-Run (omega arith)

-- An `Execute` at the head and a `Sync` behind it.
abbrev executing : Pipeline
executing = record {
  operation_limit = 4;
  operations =
      operation 5 OperationKind.execute Origin.forwarded RuntimeState.execute_response
      ∷ operation 6 OperationKind.sync Origin.forwarded RuntimeState.sync_response
      ∷ [];
  request_state = RequestState.ready;
  response_state = none;
  next_id = 7;
}

-- A `Close` that the application answers.
abbrev closing : Pipeline
closing = record executing {
  operations = operation 5 OperationKind.close Origin.local RuntimeState.close_response ∷ [];
}

-- COPY IN under an `Execute`.
abbrev copying : Pipeline
copying = record executing {
  operations =
      operation 5 OperationKind.execute Origin.forwarded RuntimeState.extended_copy_in ∷ [];
  request_state = RequestState.copy_in;
}

answered_ready : answered.request_state ≡ RequestState.ready
unfolding accept_backend accept_response prepare_response prepare_with prepare_on prepare_at_head
    project_internal transition commit_response commit_at commit_emit response_is_terminal pop_head
    remove_inert_heads response_copy_state accept_frontend prepare_frontend project_frontend
    project_external classify_frontend frontend_phase commit_frontend commit_classified advance_head
    initial_response_state retire_copy_sync project_error is_extended_kind new external_target
    is_asynchronous
answered_ready = refl

ready-ne-copy_both : {s : RequestState} → s ≡ RequestState.ready → s ≢ RequestState.copy_both
ready-ne-copy_both e h = cc (e, h)

Run-request-ne-panicked_example :
    (accept_frontend answered select FrontendHandling.local).1 ≢ panicked
Run-request-ne-panicked_example =
    Run-request-ne-panicked select FrontendHandling.local answered-Run (omega arith)
      (ready-ne-copy_both answered_ready)

select_admitted :
    (accept_frontend executing select FrontendHandling.forward).1
    ≡ done (waiting (FrontendAction.forward 7 select))
unfolding accept_frontend prepare_frontend project_frontend project_external classify_frontend
    frontend_phase commit_frontend commit_classified action_of
select_admitted = refl

accept_frontend_order_example :
    LeavesInOrder
      (ids executing.operations ++ 7 ∷ [])
      (ids (accept_frontend executing select FrontendHandling.forward).0.operations)
accept_frontend_order_example =
    accept_frontend_order executing select FrontendHandling.forward select_admitted

accept_backend_order_example :
    LeavesInOrder
      (5 ∷ 6 ∷ [])
      (ids (accept_backend executing (BackendMessage.command_complete [])).0.operations)
accept_backend_order_example = accept_backend_order executing (BackendMessage.command_complete [])

try_emit_local_order_example :
    LeavesInOrder
      (5 ∷ [])
      (ids (try_emit_local closing 5 BackendMessage.close_complete).0.operations)
try_emit_local_order_example = try_emit_local_order closing 5 BackendMessage.close_complete

accept_backend_emits_example :
    (accept_backend executing (BackendMessage.command_complete [])).1
    ≡ done (BackendAction.emit (BackendMessage.command_complete []))
unfolding project_internal
accept_backend_emits_example =
    accept_backend_emits executing
      (operation 5 OperationKind.execute Origin.forwarded RuntimeState.execute_response)
      (operation 6 OperationKind.sync Origin.forwarded RuntimeState.sync_response ∷ [])
      (BackendMessage.command_complete []) refl refl

try_emit_local_emits_example :
    (try_emit_local closing 5 BackendMessage.close_complete).1
    ≡ done (BackendAction.emit BackendMessage.close_complete)
unfolding project_internal
try_emit_local_emits_example =
    try_emit_local_emits closing
      (operation 5 OperationKind.close Origin.local RuntimeState.close_response) []
      BackendMessage.close_complete refl refl

accept_backend_cases_example : IsBackendResult executing ready (accept_backend executing ready)
accept_backend_cases_example = accept_backend_cases executing ready

length-accept_frontend_example :
    length (accept_frontend executing select FrontendHandling.forward).0.operations ≤ 4
length-accept_frontend_example =
    length-accept_frontend executing select FrontendHandling.forward (omega arith) refl

prepare_frontend-overfull_example :
    prepare_frontend (record executing { operation_limit = 1 }) select ≢ rejected (capacity select)
prepare_frontend-overfull_example =
    prepare_frontend-overfull (record executing { operation_limit = 1 }) select (omega arith)

copy_fail_admitted :
    (accept_frontend copying (FrontendMessage.copy_fail (b'x' ∷ [])) FrontendHandling.forward).1
    ≡ done (waiting (FrontendAction.discard 7))
unfolding accept_frontend prepare_frontend project_frontend project_external classify_frontend
    frontend_phase commit_frontend commit_classified action_of
copy_fail_admitted = refl

accept_frontend-copy_fail_example :
    into_action (waiting (FrontendAction.discard 7)) ≡ FrontendAction.discard 7
accept_frontend-copy_fail_example =
    accept_frontend-copy_fail copying (b'x' ∷ []) refl copy_fail_admitted

accept_backend-empty_query_example :
    (accept_backend executing BackendMessage.empty_query_response).0.operations
    ≡ executing.operations
unfolding project_internal
accept_backend-empty_query_example =
    accept_backend-empty_query executing
      (operation 5 OperationKind.execute Origin.forwarded RuntimeState.execute_response)
      (operation 6 OperationKind.sync Origin.forwarded RuntimeState.sync_response ∷ []) refl refl
      refl refl

response_is_terminal_lem_example :
    (response_is_terminal OperationKind.query ready ≡ is_final RuntimeState.ready)
    × (response_is_terminal OperationKind.query ready
        ≡ not (answers OperationKind.query RuntimeState.ready))
unfolding answers project_internal transition
response_is_terminal_lem_example =
    response_is_terminal_lem OperationKind.query RuntimeState.simple_error ready refl refl refl

project_internal-MayFail_example : MayFail RuntimeState.bind_response (record { fields = [] })
unfolding project_internal
project_internal-MayFail_example =
    project_internal-MayFail RuntimeState.bind_response BackendMessage.bind_complete
      (record { fields = [] }) refl refl refl

Leads_iff_example : Leads RuntimeState.extended_copy_both RuntimeState.function_ready ↔ (
    RuntimeState.extended_copy_both ≡ RuntimeState.terminated
    → RuntimeState.function_ready ≡ RuntimeState.terminated)
Leads_iff_example = Leads_iff RuntimeState.extended_copy_both RuntimeState.function_ready

one_side_speaks_example :
    (RuntimeState.simple_copy_both ≡ RuntimeState.simple_copy_both)
    ⊎ (RuntimeState.simple_copy_both ≡ RuntimeState.extended_copy_both)
unfolding project_internal project_external
one_side_speaks_example =
    one_side_speaks RuntimeState.simple_copy_both BackendMessage.copy_done FrontendMessage.copy_done
      refl refl

backend_operation_id_iff_example :
    (backend_operation_id executing (BackendMessage.command_complete []) ≡ some 5)
    ↔ FirstAnswers executing (BackendMessage.command_complete []) executing.operations 5
unfolding is_asynchronous
backend_operation_id_iff_example =
    backend_operation_id_iff executing (BackendMessage.command_complete []) 5 refl

abbrev select_items : List FrontendSequenceItem
select_items =
    record {
      transition_id = some (RuntimeState.ready, Event.query);
      admission = immediate (FrontendAction.forward 0 select);
    }
    ∷ []

prepare_frontend_sequence_iff_example :
    ((prepare_frontend_sequence (new 4) (select ∷ []) FrontendHandling.forward
        ≡ done ((accept_frontend (new 4) select FrontendHandling.forward).0, select_items))
      ↔ (AllReconstructable (select ∷ [])
          × Admits FrontendHandling.forward
              (new 4)
              (select ∷ [])
              (accept_frontend (new 4) select FrontendHandling.forward).0
              select_items))
    × ((prepare_frontend_sequence (new 4) (select ∷ []) FrontendHandling.forward
          ≡ rejected (capacity select))
        ↔ FirstRefused FrontendHandling.forward (new 4) (select ∷ []) (capacity select))
prepare_frontend_sequence_iff_example =
    prepare_frontend_sequence_iff (new 4) (select ∷ []) FrontendHandling.forward
      (accept_frontend (new 4) select FrontendHandling.forward).0 select_items (capacity select)
