-- ===== src/Pipeline/Runs.antt =====
-- Runs of the ledger of src/pipeline.rs: the calls a session makes, in any order.
use pg_proto.Base.{
  ℕ, suc, ◌-◌, ◌^◌, ◌≤◌, ◌<◌, List, ◌≡◌, ◌≢◌, refl, arith, Option, none, some, Option-cases, inl,
  inr,
}
use pg_proto.Codec.Frontend.{FrontendMessage}
use pg_proto.Codec.Backend.{BackendMessage}
use pg_proto.Grammar.{RuntimeState}
use pg_proto.Pipeline.Types.{
  Operation, OperationKind, Pipeline, RequestState, Outcome, done, rejected, panicked, new,
  FrontendHandling, PreparedResponse,
}
use pg_proto.Pipeline.Classify.{classify_frontend}
use pg_proto.Pipeline.Frontend.{
  prepare_frontend, accept_frontend, commit_frontend, commit_classified,
}
use pg_proto.Pipeline.Backend.{
  accept_backend, try_emit_local, accept_response, commit_response, commit_emit, project_error,
  project_deferred_local_error, discard_behind, split_at_id, pop_head,
}
use pg_proto.Pipeline.Prepare.{prepare_response}
use pg_proto.Pipeline.Invariant.{IsValid}
use pg_proto.Pipeline.Invariant.Frontend.{accept_frontend-IsValid, accept_frontend-ne-panicked}
use pg_proto.Pipeline.Invariant.Responses.{
  accept_response-emit, accept_backend-IsValid, try_emit_local-IsValid,
}

-- One call of the session on the ledger.
pub data Step : Pipeline → Pipeline → Type 0 where
  frontend :
      (p : Pipeline) (m : FrontendMessage) (handling : FrontendHandling)
      → Step p (accept_frontend p m handling).0
  backend : (p : Pipeline) (m : BackendMessage) → Step p (accept_backend p m).0
  local : (p : Pipeline) (id : ℕ) (m : BackendMessage) → Step p (try_emit_local p id m).0

-- `n` calls on a new ledger.
pub data Run (limit : ℕ) : ℕ → Pipeline → Type 0 where
  start : Run limit 0 (new limit)
  call : {n : ℕ} {p q : Pipeline} → Run limit n p → Step p q → Run limit (suc n) q

next_id-accept_frontend :
    (p : Pipeline) (m : FrontendMessage) (handling : FrontendHandling)
    → (accept_frontend p m handling).0.next_id ≤ suc p.next_id
unfolding accept_frontend commit_frontend commit_classified
next_id-accept_frontend p m handling =
    on_prepared (prepare_frontend p m) refl (classify_frontend p.request_state m) refl
  where
    on_prepared :
        (r : Outcome _ _)
        → prepare_frontend p m ≡ r
        → (c : Option (OperationKind × RequestState)) → classify_frontend p.request_state m ≡ c
        → (accept_frontend p m handling).0.next_id ≤ suc p.next_id
    on_prepared (rejected e) r c h = rw (accept_frontend, r) (omega arith)
    on_prepared panicked r c h = rw (accept_frontend, r) (omega arith)
    on_prepared (done phase) r none h = rw (accept_frontend, r, commit_frontend, h) (omega arith)
    on_prepared (done phase) r (some (k, next)) h =
        rw (accept_frontend, r, commit_frontend, h) (ground arith)

next_id-commit_emit :
    (p : Pipeline) (head : Operation) (later : List Operation) (next : RuntimeState)
    (m : BackendMessage)
    → (commit_emit p head later next m).next_id ≡ p.next_id
unfolding commit_emit pop_head
next_id-commit_emit p head later next m = ground arith

next_id-discard_behind :
    (p : Pipeline) (before : List Operation) (failed : Operation) (behind : List Operation)
    → (discard_behind p before failed behind).next_id ≡ p.next_id
unfolding discard_behind
next_id-discard_behind p before failed behind = ground arith

next_id-deferred_error :
    (p : Pipeline) (id : ℕ) → (project_deferred_local_error p id).next_id ≡ p.next_id
unfolding project_deferred_local_error
next_id-deferred_error p id = elim (Option-cases (split_at_id id p.operations)) [
  | inl e ↦ rw (project_deferred_local_error, e) refl
  | inr ((before, failed, behind), e) ↦
      rw (project_deferred_local_error, e) (next_id-discard_behind p before failed behind)
]

next_id-project_error :
    (p : Pipeline) (local_id : Option ℕ) (m : BackendMessage)
    → (project_error p PreparedResponse.deferred local_id m).next_id ≡ p.next_id
unfolding project_error
next_id-project_error p (some id) (BackendMessage.error_response r) = next_id-deferred_error p id
next_id-project_error p _ _ = refl

next_id-accept_response :
    (p : Pipeline) (local_id : Option ℕ) (m : BackendMessage)
    → (accept_response p local_id m).0.next_id ≡ p.next_id
unfolding accept_response commit_response project_error
next_id-accept_response p local_id m = on_prepared (prepare_response p local_id m) refl
  where
    on_prepared :
        (r : PreparedResponse)
        → prepare_response p local_id m ≡ r
        → (accept_response p local_id m).0.next_id ≡ p.next_id
    on_prepared PreparedResponse.asynchronous h = rw (accept_response, h) refl
    on_prepared PreparedResponse.illegal h = rw (accept_response, h) refl
    on_prepared PreparedResponse.deferred h =
        rw (accept_response, h) (next_id-project_error p local_id m)
    on_prepared (PreparedResponse.emit o s) h =
        let (later, next, at_head, may, valid, result) = accept_response-emit p local_id m h in
        rw result (next_id-commit_emit p o later next m)

next_id-Step : {p q : Pipeline} → Step p q → q.next_id ≤ suc p.next_id
unfolding accept_backend try_emit_local
next_id-Step (Step.frontend p m handling) = next_id-accept_frontend p m handling
next_id-Step (Step.backend p m) = ground (arith, next_id-accept_response p none m)
next_id-Step (Step.local p id m) = ground (arith, next_id-accept_response p (some id) m)

next_id-Run : {limit n : ℕ} {p : Pipeline} → Run limit n p → p.next_id ≤ n
unfolding new
next_id-Run Run.start = omega arith
next_id-Run (Run.call {n} run step) = ground (arith, next_id-Run run, next_id-Step step)

Step-IsValid : {p q : Pipeline} → Step p q → p.next_id < 2 ^ 64 - 1 → IsValid p → IsValid q
Step-IsValid (Step.frontend p m handling) room v = accept_frontend-IsValid p m handling v room
Step-IsValid (Step.backend p m) room v = (accept_backend-IsValid p m v).0
Step-IsValid (Step.local p id m) room v = (try_emit_local-IsValid p id m v).0

new-IsValid : (limit : ℕ) → IsValid (new limit)
unfolding new
new-IsValid limit = record {
  ordered = omega arith;
  phases = tt;
  live = refl;
  copying = λ h. absurd (cc h);
}

-- After at most 2^64 - 1 calls on a new ledger, in any order and with any messages, the ledger is
-- valid: its ids grow and are below the next id, each response stands in a phase of its
-- operation's kind, the head is live, and in COPY IN the head waits for the data.
pub Run-IsValid : {limit n : ℕ} {p : Pipeline} → Run limit n p → n ≤ 2 ^ 64 - 1 → IsValid p
Run-IsValid {limit} Run.start h = new-IsValid limit
Run-IsValid (Run.call {n} {p} run step) h =
    Step-IsValid step (omega (arith, next_id-Run run)) (Run-IsValid run (omega arith))

-- After at most 2^64 - 1 calls on a new ledger, neither a backend message nor a local answer to
-- any operation makes the ledger panic.
pub Run-answer-ne-panicked :
    {limit n : ℕ} {p : Pipeline} (m : BackendMessage) (id : ℕ)
    → Run limit n p
    → n ≤ 2 ^ 64 - 1
    → ((accept_backend p m).1 ≢ panicked) × ((try_emit_local p id m).1 ≢ panicked)
Run-answer-ne-panicked {p} m id run h =
    let v = Run-IsValid run h in
    ((accept_backend-IsValid p m v).1, (try_emit_local-IsValid p id m v).1)

-- After at most 2^64 - 1 calls on a new ledger, no frontend message makes the ledger panic, unless
-- the ledger is in COPY BOTH.
pub Run-request-ne-panicked :
    {limit n : ℕ} {p : Pipeline} (m : FrontendMessage) (handling : FrontendHandling)
    → Run limit n p
    → n ≤ 2 ^ 64 - 1
    → p.request_state ≢ RequestState.copy_both
    → (accept_frontend p m handling).1 ≢ panicked
Run-request-ne-panicked {p} m handling run h ne =
    accept_frontend-ne-panicked p m handling (Run-IsValid run h) ne
