-- ===== src/Pipeline/Order.antt =====
-- The order of src/pipeline.rs: operations leave the ledger in the order of their admission.
use pg_proto.Base.{
  ℕ, Bool, List, [], ◌∷◌, ◌++◌, ◌≡◌, refl, sym, ap, ◌∙◌, arith, Option, none, some, Option-cases,
  Bool-cases, inl, inr, ◌&&◌,
}
use pg_proto.Codec.Frontend.{FrontendMessage}
use pg_proto.Codec.Backend.{BackendMessage}
use pg_proto.Grammar.{RuntimeState}
use pg_proto.Pipeline.Types.{
  Operation, OperationKind, Pipeline, Outcome, done, rejected, panicked, PreparedResponse,
  FrontendHandling, FrontendAdmission,
}
use pg_proto.Pipeline.Classify.{classify_frontend, is_extended_kind, response_is_terminal}
use pg_proto.Pipeline.Frontend.{
  prepare_frontend, accept_frontend, commit_frontend, commit_classified, operation_of,
  retire_copy_sync, advance_head, remove_inert_heads, is_inert,
}
use pg_proto.Pipeline.Prepare.{prepare_response, is_local}
use pg_proto.Pipeline.Backend.{
  split_at_id, discard_behind, project_deferred_local_error, project_error, commit_emit,
  commit_response, accept_response, accept_backend, try_emit_local, pop_head, is_error,
}
use pg_proto.Pipeline.Invariant.{ids}
use pg_proto.Pipeline.Invariant.Lists.{ids-discard_until_sync}
use pg_proto.Pipeline.Invariant.Frontend.{ids-earlier}
use pg_proto.Pipeline.Invariant.Responses.{accept_response-emit, split_at_id-eq-some, ids-marked}

-- `later` is what is left of `earlier` when operations are taken from its front.
abbrev pub LeavesInOrder : List ℕ → List ℕ → Type 0
LeavesInOrder earlier later = (gone : List ℕ) × (earlier ≡ gone ++ later)

remove_inert_heads_order :
    (os : List Operation) → LeavesInOrder (ids os) (ids (remove_inert_heads os))
unfolding remove_inert_heads
remove_inert_heads_order [] = ([], refl)
remove_inert_heads_order (o ∷ os) = elim (Bool-cases (is_inert o)) [
  | inl t ↦
      let (gone, e) = remove_inert_heads_order os in
      rw (remove_inert_heads, t) (o.id ∷ gone, ap (λ is. o.id ∷ is) e)
  | inr t ↦ rw (remove_inert_heads, t) ([], refl)
]

commit_frontend_order :
    (p : Pipeline) (m : FrontendMessage) (handling : FrontendHandling) {a : FrontendAdmission}
    → (commit_frontend p m handling).1 ≡ done a
    → LeavesInOrder
        (ids p.operations ++ p.next_id ∷ [])
        (ids (commit_frontend p m handling).0.operations)
unfolding commit_frontend commit_classified
commit_frontend_order p m handling h = elim (Option-cases (classify_frontend p.request_state m)) [
  | inl e ↦ absurd (cc (rw (commit_frontend, e) at h))
  | inr ((k, next), e) ↦
      let new = operation_of p.next_id k next handling in
      let (gone, is) =
        remove_inert_heads_order
          (advance_head m (retire_copy_sync p.request_state k p.operations) ++ new ∷ []) in
      rw (commit_frontend, e) (gone, sym (ids-earlier p m k new) ∙ is)
]

-- When a frontend message is admitted, it enters at the end of the ledger under the next id, and
-- the ids that leave the ledger meanwhile leave from its front, in order.
pub accept_frontend_order :
    (p : Pipeline) (m : FrontendMessage) (handling : FrontendHandling) {a : FrontendAdmission}
    → (accept_frontend p m handling).1 ≡ done a
    → LeavesInOrder
        (ids p.operations ++ p.next_id ∷ [])
        (ids (accept_frontend p m handling).0.operations)
unfolding accept_frontend
accept_frontend_order p m handling {a} h = on_prepared (prepare_frontend p m) refl
  where
    on_prepared :
        (r : Outcome _ _)
        → prepare_frontend p m ≡ r
        → LeavesInOrder
            (ids p.operations ++ p.next_id ∷ [])
            (ids (accept_frontend p m handling).0.operations)
    on_prepared (rejected e) r = absurd (cc (rw (accept_frontend, r) at h))
    on_prepared panicked r = absurd (cc (rw (accept_frontend, r) at h))
    on_prepared (done phase) r =
        rw (accept_frontend, r) (commit_frontend_order p m handling (rw (accept_frontend, r) at h))

ids-pop_head :
    (p : Pipeline) (k : OperationKind) (error : Bool) (later : List Operation)
    → ids (pop_head p k error later).operations ≡ ids later
unfolding pop_head
ids-pop_head p k error later = ground (arith, ids-discard_until_sync later)

commit_emit_order :
    (p : Pipeline) (head : Operation) (later : List Operation) (next : RuntimeState)
    (m : BackendMessage)
    → LeavesInOrder (ids (head ∷ later)) (ids (commit_emit p head later next m).operations)
unfolding commit_emit
commit_emit_order p head later next m = elim (Bool-cases (response_is_terminal head.kind m)) [
  | inl t ↦
      let (gone, is) =
        remove_inert_heads_order (pop_head p head.kind (is_error m) later).operations in
      rw (commit_emit, t)
        (
          head.id ∷ gone,
          ap (λ is. head.id ∷ is) (sym (ids-pop_head p head.kind (is_error m) later) ∙ is),
        )
  | inr t ↦
      rw (commit_emit, t) (remove_inert_heads_order (record head { response_state = next } ∷ later))
]

ids-discard_behind :
    (p : Pipeline) (before : List Operation) (failed : Operation) (behind : List Operation)
    → p.operations ≡ before ++ (failed ∷ behind)
    → ids (discard_behind p before failed behind).operations ≡ ids p.operations
unfolding discard_behind
ids-discard_behind p before failed behind e =
    elim (Bool-cases (is_local failed.origin && is_extended_kind failed.kind)) [
      | inr f ↦ rw (discard_behind, f) refl
      | inl t ↦ rw (discard_behind, t) (ids-marked before failed behind ∙ ap ids (sym e))
    ]

ids-deferred_error :
    (p : Pipeline) (id : ℕ) → ids (project_deferred_local_error p id).operations ≡ ids p.operations
unfolding project_deferred_local_error
ids-deferred_error p id = elim (Option-cases (split_at_id id p.operations)) [
  | inl e ↦ rw (project_deferred_local_error, e) refl
  | inr ((before, failed, behind), e) ↦
      rw (project_deferred_local_error, e)
        (ids-discard_behind p before failed behind (split_at_id-eq-some id p.operations e))
]

ids-project_error :
    (p : Pipeline) (local_id : Option ℕ) (m : BackendMessage)
    → ids (project_error p PreparedResponse.deferred local_id m).operations ≡ ids p.operations
unfolding project_error
ids-project_error p (some id) (BackendMessage.error_response r) = ids-deferred_error p id
ids-project_error p _ _ = refl

accept_response_order :
    (p : Pipeline) (local_id : Option ℕ) (m : BackendMessage)
    → LeavesInOrder (ids p.operations) (ids (accept_response p local_id m).0.operations)
unfolding accept_response commit_response project_error
accept_response_order p local_id m = on_prepared (prepare_response p local_id m) refl
  where
    on_prepared :
        (r : PreparedResponse)
        → prepare_response p local_id m ≡ r
        → LeavesInOrder (ids p.operations) (ids (accept_response p local_id m).0.operations)
    on_prepared PreparedResponse.asynchronous h = rw (accept_response, h) ([], refl)
    on_prepared PreparedResponse.illegal h = rw (accept_response, h) ([], refl)
    on_prepared PreparedResponse.deferred h =
        rw (accept_response, h) ([], sym (ids-project_error p local_id m))
    on_prepared (PreparedResponse.emit o s) h =
        let (later, next, at_head, may, valid, result) = accept_response-emit p local_id m h in
        let (gone, is) = commit_emit_order p o later next m in rw result (gone, ap ids at_head ∙ is)

-- The ids that leave the ledger when a backend message arrives leave from its front, in order; none
-- is added.
pub accept_backend_order :
    (p : Pipeline) (m : BackendMessage)
    → LeavesInOrder (ids p.operations) (ids (accept_backend p m).0.operations)
unfolding accept_backend
accept_backend_order p m = accept_response_order p none m

-- The ids that leave the ledger when an operation is answered locally leave from its front, in
-- order; none is added.
pub try_emit_local_order :
    (p : Pipeline) (id : ℕ) (m : BackendMessage)
    → LeavesInOrder (ids p.operations) (ids (try_emit_local p id m).0.operations)
unfolding try_emit_local
try_emit_local_order p id m = accept_response_order p (some id) m
