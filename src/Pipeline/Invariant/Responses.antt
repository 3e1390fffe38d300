-- ===== src/Pipeline/Invariant/Responses.antt =====
-- Whatever the backend or the application answers, the ledger stays valid and does not panic.
use pg_proto.Base.{
  ℕ, Bool, true, List, [], ◌∷◌, ◌++◌, ◌≡◌, ◌≢◌, refl, sym, ap, ◌∙◌, All, arith, ◌&&◌, Option, none,
  some, Option-cases, Bool-cases, inl, inr, if◌then◌else◌,
}
use mathlib.Core.Path.{subst}
use pg_proto.Codec.Backend.{BackendMessage}
use pg_proto.Grammar.{RuntimeState, Event, project_internal, transition}
use pg_proto.Pipeline.Types.{
  Operation, Pipeline, RequestState, done, panicked, PreparedResponse, BackendAction,
}
use pg_proto.Pipeline.Classify.{is_extended_kind}
use pg_proto.Pipeline.Prepare.{prepare_response, is_local}
use pg_proto.Pipeline.Backend.{
  discard_until_sync, split_at_id, discard_behind, project_deferred_local_error, project_error,
  commit_emit, commit_at, commit_response, accept_response, accept_backend, try_emit_local,
}
use pg_proto.Pipeline.Invariant.{ids, Grows, HasPhase, head_is_live, head_copies_in, IsValid}
use pg_proto.Pipeline.Invariant.Lists.{ids-discard_until_sync, discard_until_sync-All}
use pg_proto.Pipeline.Invariant.Backend.{commit_emit-IsValid}
use pg_proto.Pipeline.Answers.{may_answer, prepare_response-emit, head_row}

commit_at-row :
    (p : Pipeline) (o : Operation) (later : List Operation) (s : RuntimeState) (m : BackendMessage)
    {e : Event} {next : RuntimeState}
    → project_internal s m ≡ some e
    → transition s e ≡ some next
    → commit_at p (o ∷ later) s m ≡ (commit_emit p o later next m, done (BackendAction.emit m))
unfolding commit_at
commit_at-row p o later s m projected moves = rw (commit_at, projected, moves) refl

accept_response_emit :
    (p : Pipeline) (local_id : Option ℕ) (m : BackendMessage) {o : Operation} {s : RuntimeState}
    → prepare_response p local_id m ≡ PreparedResponse.emit o s
    → accept_response p local_id m ≡ commit_at p p.operations s m
unfolding accept_response commit_response project_error
accept_response_emit p local_id m h = rw h refl

-- What `accept_response` does when it emits for the head.
pub accept_response-emit :
    (p : Pipeline) (local_id : Option ℕ) (m : BackendMessage) {o : Operation} {s : RuntimeState}
    → prepare_response p local_id m ≡ PreparedResponse.emit o s
    → (later : List Operation) × (next : RuntimeState) × (p.operations ≡ o ∷ later)
      × (may_answer local_id o m ≡ true)
      × (IsValid p → IsValid (commit_emit p o later next m))
      × (accept_response p local_id m ≡ (commit_emit p o later next m, done (BackendAction.emit m)))
accept_response-emit p local_id m {o} {s} h =
    let (later, at_head, is_state, may) = prepare_response-emit p local_id m h in
    let (e, next, projected, moves) = head_row local_id o m may in
    (
      later,
      next,
      at_head,
      may,
      λ v. commit_emit-IsValid p o later m e next v at_head projected moves,
      accept_response_emit p local_id m h
          ∙ ap (λ os. commit_at p os s m) at_head
          ∙ ap (λ t. commit_at p (o ∷ later) t m) is_state
          ∙ commit_at-row p o later o.response_state m projected moves,
    )

pub split_at_id-eq-some :
    (id : ℕ) (os : List Operation) {before behind : List Operation} {found : Operation}
    → split_at_id id os ≡ some (before, found, behind)
    → os ≡ before ++ (found ∷ behind)
unfolding split_at_id
split_at_id-eq-some id [] h = cc
split_at_id-eq-some id (o ∷ os) h = elim (Option-cases (split_at_id id os)) [
  | inl e ↦ ground arith
  | inr ((b, f, a), e) ↦ ground (arith, split_at_id-eq-some id os e)
]

-- What is marked behind an operation leaves the ids, the phases and the head.
pub ids-marked :
    (before : List Operation) (failed : Operation) (behind : List Operation)
    → ids (before ++ (failed ∷ (discard_until_sync behind).0)) ≡ ids (before ++ (failed ∷ behind))
ids-marked [] failed behind = ap (λ is. failed.id ∷ is) (ids-discard_until_sync behind)
ids-marked (o ∷ before) failed behind = ap (λ is. o.id ∷ is) (ids-marked before failed behind)

marked-All :
    (before : List Operation) (failed : Operation) (behind : List Operation)
    → All HasPhase (before ++ (failed ∷ behind))
    → All HasPhase (before ++ (failed ∷ (discard_until_sync behind).0))
marked-All [] failed behind h = (h.0, discard_until_sync-All behind h.1)
marked-All (o ∷ before) failed behind h = (h.0, marked-All before failed behind h.1)

marked_live :
    (before : List Operation) (failed : Operation) (behind os : List Operation)
    → head_is_live (before ++ (failed ∷ os)) ≡ head_is_live (before ++ (failed ∷ behind))
marked_live [] failed behind os = refl
marked_live (o ∷ before) failed behind os = refl

marked_copying :
    (before : List Operation) (failed : Operation) (behind os : List Operation)
    → head_copies_in (before ++ (failed ∷ os)) ≡ head_copies_in (before ++ (failed ∷ behind))
marked_copying [] failed behind os = refl
marked_copying (o ∷ before) failed behind os = refl

marked_request :
    (b : Bool) (s : RequestState)
    → (if b then s else RequestState.extended_error) ≡ RequestState.copy_in
    → s ≡ RequestState.copy_in
marked_request b s h = ground arith

discard_behind-IsValid :
    (p : Pipeline) (before : List Operation) (failed : Operation) (behind : List Operation)
    → p.operations ≡ before ++ (failed ∷ behind)
    → IsValid p
    → IsValid (discard_behind p before failed behind)
unfolding discard_behind
discard_behind-IsValid p before failed behind e v =
    elim (Bool-cases (is_local failed.origin && is_extended_kind failed.kind)) [
      | inr f ↦ rw f v
      | inl t ↦ rw t (record {
        ordered =
            subst (λ is. Grows 0 is p.next_id) (ap ids e ∙ sym (ids-marked before failed behind))
              v.ordered;
        phases = marked-All before failed behind (subst (All HasPhase) e v.phases);
        live =
            marked_live before failed behind (discard_until_sync behind).0
            ∙ ap head_is_live (sym e)
            ∙ v.live;
        copying = λ h.
            marked_copying before failed behind (discard_until_sync behind).0
            ∙ ap head_copies_in (sym e)
            ∙ v.copying (marked_request (discard_until_sync behind).1 p.request_state h);
      })
    ]

deferred_error-IsValid :
    (p : Pipeline) (id : ℕ) → IsValid p → IsValid (project_deferred_local_error p id)
unfolding project_deferred_local_error
deferred_error-IsValid p id v = elim (Option-cases (split_at_id id p.operations)) [
  | inl e ↦ rw (e, project_deferred_local_error) v
  | inr ((before, failed, behind), e) ↦
      rw (e, project_deferred_local_error)
        (discard_behind-IsValid p before failed behind (split_at_id-eq-some id p.operations e) v)
]

project_error-IsValid :
    (p : Pipeline) (local_id : Option ℕ) (m : BackendMessage)
    → IsValid p
    → IsValid (project_error p PreparedResponse.deferred local_id m)
unfolding project_error
project_error-IsValid p (some id) (BackendMessage.error_response r) v =
    deferred_error-IsValid p id v
project_error-IsValid p _ _ v = v

-- Answering keeps the ledger valid, and neither `expect` of `commit_response` fires.
accept_response-IsValid :
    (p : Pipeline) (local_id : Option ℕ) (m : BackendMessage)
    → IsValid p
    → IsValid (accept_response p local_id m).0 × ((accept_response p local_id m).1 ≢ panicked)
unfolding accept_response commit_response project_error
accept_response-IsValid p local_id m v = on_prepared (prepare_response p local_id m) refl
  where
    on_prepared :
        (r : PreparedResponse)
        → prepare_response p local_id m ≡ r
        → IsValid (accept_response p local_id m).0 × ((accept_response p local_id m).1 ≢ panicked)
    on_prepared PreparedResponse.asynchronous h = rw (accept_response, h) (v, λ e. cc e)
    on_prepared PreparedResponse.illegal h = rw (accept_response, h) (v, λ e. cc e)
    on_prepared PreparedResponse.deferred h =
        rw (accept_response, h) (project_error-IsValid p local_id m v, λ e. cc e)
    on_prepared (PreparedResponse.emit o s) h =
        let (later, next, at_head, may, valid, result) = accept_response-emit p local_id m h in
        rw result (valid v, λ e. cc e)

pub accept_backend-IsValid :
    (p : Pipeline) (m : BackendMessage)
    → IsValid p
    → IsValid (accept_backend p m).0 × ((accept_backend p m).1 ≢ panicked)
unfolding accept_backend
accept_backend-IsValid p m v = accept_response-IsValid p none m v

pub try_emit_local-IsValid :
    (p : Pipeline) (id : ℕ) (m : BackendMessage)
    → IsValid p
    → IsValid (try_emit_local p id m).0 × ((try_emit_local p id m).1 ≢ panicked)
unfolding try_emit_local
try_emit_local-IsValid p id m v = accept_response-IsValid p (some id) m v
