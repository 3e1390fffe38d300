-- ===== src/Pipeline/Rows.antt =====
-- Each response against the grammar's row for it, kind by kind.
use pg_proto.Base.{true, false, some, none, ap, not, Bool-cases, inl, inr, ◌≡◌, refl, arith}
use pg_proto.Codec.Backend.{BackendMessage}
use pg_proto.Grammar.{RuntimeState, Event, project_internal, transition}
use pg_proto.Pipeline.Types.{OperationKind}
use pg_proto.Pipeline.Classify.{response_is_terminal}
use pg_proto.Pipeline.Frontend.{is_inert_kind}
use pg_proto.Pipeline.Phases.{answers, is_final, is_query_phase, is_execute_phase}

-- The ledger calls a response terminal exactly when the grammar's row leads to Ready, Building or
-- ExtendedError, and
-- any other response leads to a phase of the same kind.
abbrev pub RowAgrees : OperationKind → BackendMessage → RuntimeState → Type 0
RowAgrees k m t =
    (response_is_terminal k m ≡ is_final t)
    × (response_is_terminal k m ≡ false → answers k t ≡ true)

query_row :
    (s : RuntimeState) (m : BackendMessage) {e : Event} {t : RuntimeState}
    → is_query_phase s ≡ true
    → project_internal s m ≡ some e
    → transition s e ≡ some t
    → RowAgrees OperationKind.query m t
unfolding answers is_query_phase is_execute_phase is_final response_is_terminal project_internal
    transition
query_row RuntimeState.simple m h p q = ground arith
query_row RuntimeState.simple_error m h p q = ground arith
query_row RuntimeState.simple_copy_in m h p q = ground arith
query_row RuntimeState.simple_copy_in_done m h p q = ground arith
query_row RuntimeState.simple_copy_in_failed m h p q = ground arith
query_row RuntimeState.simple_copy_out m h p q = ground arith
query_row RuntimeState.simple_copy_out_done m h p q = ground arith
query_row RuntimeState.simple_copy_ready m h p q = ground arith
query_row RuntimeState.simple_copy_both m h p q = ground arith
query_row RuntimeState.simple_copy_both_client_done m h p q = ground arith
query_row RuntimeState.simple_copy_both_server_done m h p q = ground arith
query_row RuntimeState.simple_copy_both_done m h p q = ground arith
query_row RuntimeState.simple_copy_both_failed m h p q = ground arith
query_row _ m h p q = absurd (ground arith)

execute_row :
    (s : RuntimeState) (m : BackendMessage) {e : Event} {t : RuntimeState}
    → is_execute_phase s ≡ true
    → project_internal s m ≡ some e
    → transition s e ≡ some t
    → RowAgrees OperationKind.execute m t
unfolding answers is_query_phase is_execute_phase is_final response_is_terminal project_internal
    transition
execute_row RuntimeState.execute_response m h p q = ground arith
execute_row RuntimeState.extended_copy_in m h p q = ground arith
execute_row RuntimeState.extended_copy_in_done m h p q = ground arith
execute_row RuntimeState.extended_copy_in_failed m h p q = ground arith
execute_row RuntimeState.extended_copy_out m h p q = ground arith
execute_row RuntimeState.extended_copy_out_done m h p q = ground arith
execute_row RuntimeState.extended_copy_both m h p q = ground arith
execute_row RuntimeState.extended_copy_both_client_done m h p q = ground arith
execute_row RuntimeState.extended_copy_both_server_done m h p q = ground arith
execute_row RuntimeState.extended_copy_both_done m h p q = ground arith
execute_row RuntimeState.extended_copy_both_failed m h p q = ground arith
execute_row _ m h p q = absurd (ground arith)

function_call_row :
    (s : RuntimeState) (m : BackendMessage) {e : Event} {t : RuntimeState}
    → answers OperationKind.function_call s ≡ true
    → project_internal s m ≡ some e
    → transition s e ≡ some t
    → RowAgrees OperationKind.function_call m t
unfolding answers is_query_phase is_execute_phase is_final response_is_terminal project_internal
    transition
function_call_row RuntimeState.function_response m h p q = ground arith
function_call_row RuntimeState.function_ready m h p q = ground arith
function_call_row _ m h p q = absurd (ground arith)

parse_row :
    (s : RuntimeState) (m : BackendMessage) {e : Event} {t : RuntimeState}
    → answers OperationKind.parse s ≡ true
    → project_internal s m ≡ some e
    → transition s e ≡ some t
    → RowAgrees OperationKind.parse m t
unfolding answers is_query_phase is_execute_phase is_final response_is_terminal project_internal
    transition
parse_row RuntimeState.parse_response m h p q = ground arith
parse_row _ m h p q = absurd (ground arith)

bind_row :
    (s : RuntimeState) (m : BackendMessage) {e : Event} {t : RuntimeState}
    → answers OperationKind.bind s ≡ true
    → project_internal s m ≡ some e
    → transition s e ≡ some t
    → RowAgrees OperationKind.bind m t
unfolding answers is_query_phase is_execute_phase is_final response_is_terminal project_internal
    transition
bind_row RuntimeState.bind_response m h p q = ground arith
bind_row _ m h p q = absurd (ground arith)

describe_row :
    (s : RuntimeState) (m : BackendMessage) {e : Event} {t : RuntimeState}
    → answers OperationKind.describe s ≡ true
    → project_internal s m ≡ some e
    → transition s e ≡ some t
    → RowAgrees OperationKind.describe m t
unfolding answers is_query_phase is_execute_phase is_final response_is_terminal project_internal
    transition
describe_row RuntimeState.describe_response m h p q = ground arith
describe_row _ m h p q = absurd (ground arith)

close_row :
    (s : RuntimeState) (m : BackendMessage) {e : Event} {t : RuntimeState}
    → answers OperationKind.close s ≡ true
    → project_internal s m ≡ some e
    → transition s e ≡ some t
    → RowAgrees OperationKind.close m t
unfolding answers is_query_phase is_execute_phase is_final response_is_terminal project_internal
    transition
close_row RuntimeState.close_response m h p q = ground arith
close_row _ m h p q = absurd (ground arith)

sync_row :
    (s : RuntimeState) (m : BackendMessage) {e : Event} {t : RuntimeState}
    → answers OperationKind.sync s ≡ true
    → project_internal s m ≡ some e
    → transition s e ≡ some t
    → RowAgrees OperationKind.sync m t
unfolding answers is_query_phase is_execute_phase is_final response_is_terminal project_internal
    transition
sync_row RuntimeState.sync_response m h p q = ground arith
sync_row _ m h p q = absurd (ground arith)

terminated_silent : (m : BackendMessage) → project_internal RuntimeState.terminated m ≡ none
unfolding project_internal
terminated_silent m = refl

is_terminated :
    {s : RuntimeState} (k : OperationKind)
    → is_inert_kind k ≡ true
    → answers k s ≡ true
    → s ≡ RuntimeState.terminated
unfolding answers
is_terminated k i h = ground arith

terminated_row :
    (k : OperationKind) (s : RuntimeState) (m : BackendMessage) {e : Event} {t : RuntimeState}
    → is_inert_kind k ≡ true
    → answers k s ≡ true
    → project_internal s m ≡ some e
    → transition s e ≡ some t
    → RowAgrees k m t
terminated_row k s m i h p q =
    absurd (cc (terminated_silent m, p, ap (λ s. project_internal s m) (is_terminated k i h)))

pub response_is_terminal-is_final :
    (k : OperationKind) (s : RuntimeState) (m : BackendMessage) {e : Event} {t : RuntimeState}
    → answers k s ≡ true
    → project_internal s m ≡ some e
    → transition s e ≡ some t
    → RowAgrees k m t
unfolding answers
response_is_terminal-is_final OperationKind.query s m h p q = query_row s m h p q
response_is_terminal-is_final OperationKind.execute s m h p q = execute_row s m h p q
response_is_terminal-is_final OperationKind.function_call s m h p q = function_call_row s m h p q
response_is_terminal-is_final OperationKind.parse s m h p q = parse_row s m h p q
response_is_terminal-is_final OperationKind.bind s m h p q = bind_row s m h p q
response_is_terminal-is_final OperationKind.describe s m h p q = describe_row s m h p q
response_is_terminal-is_final OperationKind.close s m h p q = close_row s m h p q
response_is_terminal-is_final OperationKind.sync s m h p q = sync_row s m h p q
response_is_terminal-is_final OperationKind.flush s m h p q =
    terminated_row OperationKind.flush s m refl h p q
response_is_terminal-is_final OperationKind.copy_data s m h p q =
    terminated_row OperationKind.copy_data s m refl h p q
response_is_terminal-is_final OperationKind.copy_done s m h p q =
    terminated_row OperationKind.copy_done s m refl h p q
response_is_terminal-is_final OperationKind.copy_fail s m h p q =
    terminated_row OperationKind.copy_fail s m refl h p q
response_is_terminal-is_final OperationKind.terminate s m h p q =
    terminated_row OperationKind.terminate s m refl h p q

answers-is_final : (k : OperationKind) (t : RuntimeState) → is_final t ≡ true → answers k t ≡ false
unfolding answers is_query_phase is_execute_phase is_final
answers-is_final OperationKind.query RuntimeState.ready h = refl
answers-is_final _ RuntimeState.ready h = refl
answers-is_final _ RuntimeState.building h = refl
answers-is_final _ RuntimeState.extended_error h = refl
answers-is_final _ _ h = absurd (cc h)

-- In each phase of an operation's kind, a response that the grammar has a row for is terminal for
-- the ledger exactly when the row leads to Ready, Building or ExtendedError, and exactly when the row
-- does not lead to a phase of the same kind.
pub response_is_terminal_lem :
    (k : OperationKind) (s : RuntimeState) (m : BackendMessage) {e : Event} {t : RuntimeState}
    → answers k s ≡ true
    → project_internal s m ≡ some e
    → transition s e ≡ some t
    → (response_is_terminal k m ≡ is_final t) × (response_is_terminal k m ≡ not (answers k t))
response_is_terminal_lem k s m {t = t} h p q =
    let (agrees, stays) = response_is_terminal-is_final k s m h p q in
    (
      agrees,
      elim (Bool-cases (response_is_terminal k m)) [
        | inl ends ↦ rw (ends, answers-is_final k t (cc (agrees, ends))) refl
        | inr goes_on ↦ rw (goes_on, stays goes_on) refl
      ],
    )
