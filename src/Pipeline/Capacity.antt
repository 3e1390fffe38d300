-- ===== src/Pipeline/Capacity.antt =====
-- The limit of src/pipeline.rs on outstanding operations.
use pg_proto.Base.{
  suc, ◌≤◌, false, List, [], ◌∷◌, ◌++◌, ◌≡◌, ◌≢◌, refl, ap, arith, some, Option-cases, Bool-cases,
  inl, inr, length,
}
use pg_proto.Codec.Frontend.{FrontendMessage}
use pg_proto.Pipeline.Types.{
  Operation, OperationKind, Pipeline, RequestState, Outcome, done, rejected, panicked,
  FrontendHandling, capacity,
}
use pg_proto.Pipeline.Classify.{classify_frontend}
use pg_proto.Pipeline.Frontend.{
  prepare_frontend, accept_frontend, commit_frontend, commit_classified, operation_of,
  retire_copy_sync, advance_head, remove_inert_heads, accepts_copy_data, is_inert,
  discard_last_sync,
}

length-remove_inert_heads : (os : List Operation) → length (remove_inert_heads os) ≤ length os
unfolding remove_inert_heads
length-remove_inert_heads [] = omega arith
length-remove_inert_heads (o ∷ os) = elim (Bool-cases (is_inert o)) [
  | inl t ↦ rw (remove_inert_heads, t) (omega (arith, length-remove_inert_heads os))
  | inr t ↦ rw (remove_inert_heads, t) (omega arith)
]

length-advance_head :
    (m : FrontendMessage) (os : List Operation) → length (advance_head m os) ≡ length os
unfolding advance_head
length-advance_head m [] = refl
length-advance_head m (o ∷ os) = refl

length-discard_last_sync :
    (os : List Operation) {os' : List Operation}
    → discard_last_sync os ≡ some os'
    → length os' ≡ length os
unfolding discard_last_sync
length-discard_last_sync [] h = cc
length-discard_last_sync (o ∷ os) h = elim (Option-cases (discard_last_sync os)) [
  | inl e ↦ ground arith
  | inr (rest, e) ↦ ground (arith, length-discard_last_sync os e)
]

length-retire_copy_sync :
    (s : RequestState) (k : OperationKind) (os : List Operation)
    → length (retire_copy_sync s k os) ≡ length os
unfolding retire_copy_sync
length-retire_copy_sync s k os = elim (Option-cases (discard_last_sync os)) [
  | inl e ↦ ground arith
  | inr (rest, e) ↦ ground (arith, length-discard_last_sync os e)
]

length-snoc : (os : List Operation) (o : Operation) → length (os ++ o ∷ []) ≡ suc (length os)
length-snoc [] o = refl
length-snoc (x ∷ os) o = ap suc (length-snoc os o)

length-commit_frontend :
    (p : Pipeline) (m : FrontendMessage) (handling : FrontendHandling)
    → length (commit_frontend p m handling).0.operations ≤ suc (length p.operations)
unfolding commit_frontend commit_classified
length-commit_frontend p m handling = elim (Option-cases (classify_frontend p.request_state m)) [
  | inl e ↦ rw (commit_frontend, e) (omega arith)
  | inr ((k, next), e) ↦
      let new = operation_of p.next_id k next handling in
      let retired = retire_copy_sync p.request_state k p.operations in
      rw (commit_frontend, e)
        (omega (
          arith,
          length-remove_inert_heads (advance_head m retired ++ new ∷ []),
          length-snoc (advance_head m retired) new,
          length-advance_head m retired,
          length-retire_copy_sync p.request_state k p.operations,
        ))
]

-- At the limit, outside COPY IN and COPY BOTH, nothing is admitted.
full_rejects :
    (p : Pipeline) (m : FrontendMessage)
    → length p.operations ≡ p.operation_limit
    → accepts_copy_data p.request_state ≡ false
    → prepare_frontend p m ≡ rejected (capacity m)
unfolding prepare_frontend
full_rejects p m full no_copy = ground arith

-- When a ledger within its limit is neither in COPY IN nor in COPY BOTH, it is within its limit after
-- any frontend message.
pub length-accept_frontend :
    (p : Pipeline) (m : FrontendMessage) (handling : FrontendHandling)
    → length p.operations ≤ p.operation_limit
    → accepts_copy_data p.request_state ≡ false
    → length (accept_frontend p m handling).0.operations ≤ p.operation_limit
unfolding accept_frontend
length-accept_frontend p m handling bound no_copy = on_prepared (prepare_frontend p m) refl
  where
    on_prepared :
        (r : Outcome _ _)
        → prepare_frontend p m ≡ r
        → length (accept_frontend p m handling).0.operations ≤ p.operation_limit
    on_prepared (rejected e) r = rw (accept_frontend, r) bound
    on_prepared panicked r = rw (accept_frontend, r) bound
    on_prepared (done phase) r =
        let not_full : length p.operations ≢ p.operation_limit =
          λ full. cc (r, full_rejects p m full no_copy) in
        rw (accept_frontend, r) (omega (arith, length-commit_frontend p m handling))
