-- ===== src/Pipeline/Emission.antt =====
-- What src/pipeline.rs lets through: the answers of the head, and what belongs to no operation.
use pg_proto.Base.{
  ℕ, Bool, true, false, not, List, [], ◌∷◌, ◌≡◌, ◌≢◌, refl, ap, arith, Option, none, some,
  Bool-cases, inl, inr, if◌then◌else◌, ◌⊎◌, ◌==◌, any, ◌&&◌,
}
use pg_proto.Codec.Backend.{BackendMessage}
use pg_proto.Demux.{is_asynchronous}
use pg_proto.Pipeline.Types.{
  Operation, Pipeline, done, rejected, PreparedResponse, BackendAction, state,
}
use pg_proto.Pipeline.Classify.{response_fits}
use pg_proto.Pipeline.Prepare.{
  prepare_response, prepare_with, prepare_on, prepare_at_head, is_local,
}
use pg_proto.Pipeline.Backend.{
  commit_response, accept_response, accept_backend, try_emit_local, project_error, BackendOutcome,
}
use pg_proto.Pipeline.Answers.{may_answer}
use pg_proto.Pipeline.Invariant.Responses.{accept_response-emit}

prepare_on-may_answer :
    (local_id : Option ℕ) (head : Operation) (later : List Operation) (m : BackendMessage)
    → may_answer local_id head m ≡ true
    → prepare_on local_id head later m ≡ PreparedResponse.emit head head.response_state
unfolding prepare_on prepare_at_head
prepare_on-may_answer none head later m h = elim (Bool-cases (is_local head.origin)) [
  | inl t ↦ absurd (ground arith)
  | inr t ↦ rw t (ground arith)
]
prepare_on-may_answer (some id) head later m h = elim (Bool-cases (is_local head.origin)) [
  | inl t ↦ elim (Bool-cases (head.id == id)) [
    | inl i ↦ rw (t, i) (ground arith)
    | inr i ↦ absurd (ground arith)
  ]
  | inr t ↦ absurd (ground arith)
]

-- An answer that the head may give is emitted as it is.
accept_response_emits :
    (p : Pipeline) (local_id : Option ℕ) (head : Operation) (later : List Operation)
    (m : BackendMessage)
    → p.operations ≡ head ∷ later
    → may_answer local_id head m ≡ true
    → (accept_response p local_id m).1 ≡ done (BackendAction.emit m)
unfolding accept_response commit_response project_error prepare_response prepare_with
accept_response_emits p local_id head later m at_head may = elim (Bool-cases (is_asynchronous m)) [
  | inl t ↦ rw (accept_response, prepare_response, t) refl
  | inr t ↦
      let prepared : prepare_response p local_id m
          ≡ PreparedResponse.emit head head.response_state =
        rw (t, at_head) (prepare_on-may_answer local_id head later m may) in
      let (later', next, at', may', valid, result) = accept_response-emit p local_id m prepared in
      ap (λ r. r.1) result
]

-- A backend message that fits the phase of the head, where the head is forwarded and not discarded,
-- is emitted unchanged.
pub accept_backend_emits :
    (p : Pipeline) (head : Operation) (later : List Operation) (m : BackendMessage)
    → p.operations ≡ head ∷ later
    → may_answer none head m ≡ true
    → (accept_backend p m).1 ≡ done (BackendAction.emit m)
unfolding accept_backend
accept_backend_emits p head later m at_head may =
    accept_response_emits p none head later m at_head may

-- A local answer to the head's id that fits the phase of the head, where the head is handled locally
-- and not discarded, is emitted unchanged.
pub try_emit_local_emits :
    (p : Pipeline) (head : Operation) (later : List Operation) (m : BackendMessage)
    → p.operations ≡ head ∷ later
    → may_answer (some head.id) head m ≡ true
    → (try_emit_local p head.id m).1 ≡ done (BackendAction.emit m)
unfolding try_emit_local
try_emit_local_emits p head later m at_head may =
    accept_response_emits p (some head.id) head later m at_head may

-- The results that `accept_backend` may have.
abbrev pub IsBackendResult : Pipeline → BackendMessage → Pipeline × BackendOutcome → Type 0
IsBackendResult p m r =
    ((is_asynchronous m ≡ true) × (r ≡ (p, done (BackendAction.emit m))))
    ⊎ ((head : Operation) × (later : List Operation) × (p.operations ≡ head ∷ later)
        × (may_answer none head m ≡ true)
        × (r.1 ≡ done (BackendAction.emit m)))
    ⊎ (r ≡ (p, done (BackendAction.deferred m)))
    ⊎ (r ≡ (p, rejected (record { state = state p; message = m })))

not_asynchronous_at_head :
    (head : Operation) (later : List Operation) (m : BackendMessage)
    → prepare_at_head head later m ≢ PreparedResponse.asynchronous
unfolding prepare_at_head
not_asynchronous_at_head head later m e = ground arith

unasked_ne :
    (b : Bool)
    → (if b then PreparedResponse.deferred else PreparedResponse.illegal)
      ≢ PreparedResponse.asynchronous
unasked_ne true e = cc
unasked_ne false e = cc

not_on :
    (head : Operation) (later : List Operation) (m : BackendMessage)
    → prepare_on none head later m ≢ PreparedResponse.asynchronous
unfolding prepare_on
not_on head later m e = elim (Bool-cases (is_local head.origin)) [
  | inl t ↦
      unasked_ne (any (λ o. not (is_local o.origin) && response_fits o m) later)
        (rw (prepare_on, t) at e)
  | inr t ↦ not_asynchronous_at_head head later m (rw (prepare_on, t) at e)
]

prepared_asynchronous :
    (p : Pipeline) (m : BackendMessage)
    → prepare_response p none m ≡ PreparedResponse.asynchronous
    → is_asynchronous m ≡ true
unfolding prepare_response prepare_with
prepared_asynchronous p m h = elim (Bool-cases (is_asynchronous m)) [
  | inl t ↦ t
  | inr t ↦ absurd (not_asynchronous p.operations (rw (prepare_response, t) at h))
]
  where
    not_asynchronous :
        (os : List Operation) → prepare_with false none os m ≢ PreparedResponse.asynchronous
    not_asynchronous [] e = cc
    not_asynchronous (head ∷ later) e = not_on head later m e

-- A backend message is emitted because it is asynchronous, with the ledger unchanged; or because the
-- head, forwarded and not discarded, is in a phase that it fits; or else it is deferred or rejected,
-- with the ledger and the message unchanged.
pub accept_backend_cases :
    (p : Pipeline) (m : BackendMessage) → IsBackendResult p m (accept_backend p m)
unfolding accept_backend accept_response commit_response project_error
accept_backend_cases p m = on_prepared (prepare_response p none m) refl
  where
    on_prepared :
        (r : PreparedResponse)
        → prepare_response p none m ≡ r
        → IsBackendResult p m (accept_backend p m)
    on_prepared PreparedResponse.asynchronous h =
        inl (prepared_asynchronous p m h, rw (accept_backend, accept_response, h) refl)
    on_prepared (PreparedResponse.emit o s) h =
        let (later, next, at_head, may, valid, result) = accept_response-emit p none m h in
        inr (inl (o, later, at_head, may, ap (λ r. r.1) result))
    on_prepared PreparedResponse.deferred h =
        inr (inr (inl (rw (accept_backend, accept_response, h) refl)))
    on_prepared PreparedResponse.illegal h =
        inr (inr (inr (rw (accept_backend, accept_response, h) refl)))
