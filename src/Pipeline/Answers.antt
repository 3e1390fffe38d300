-- ===== src/Pipeline/Answers.antt =====
-- src/pipeline.rs, `prepare_response`: nothing but a live head answers.
use pg_proto.Base.{
  ℕ, Bool, true, false, not, List, [], ◌∷◌, ◌≡◌, ◌≢◌, refl, arith, ◌&&◌, Option, none, some,
  is_some, Bool-cases, inl, inr, if◌then◌else◌, ◌==◌, any,
}
use pg_proto.Codec.Backend.{BackendMessage}
use pg_proto.Demux.{is_asynchronous}
use pg_proto.Grammar.{RuntimeState, Event, project_internal, transition}
use pg_proto.Grammar.Laws.{transition-project_internal}
use pg_proto.Pipeline.Types.{Operation, Pipeline, PreparedResponse}
use pg_proto.Pipeline.Classify.{response_fits}
use pg_proto.Pipeline.Prepare.{
  prepare_response, prepare_with, prepare_on, prepare_at_head, is_local,
}

-- The head may answer: it is who is asked, it is live, and the message fits its phase.
abbrev pub may_answer : Option ℕ → Operation → BackendMessage → Bool
may_answer none head m =
    if head.discarded then false else if is_local head.origin then false else response_fits head m
may_answer (some id) head m =
    if head.discarded
    then false
    else if is_local head.origin
    then if head.id == id then response_fits head m else false
    else false

prepare_at_head-emit :
    (head : Operation) (later : List Operation) (m : BackendMessage) {o : Operation}
    {s : RuntimeState}
    → prepare_at_head head later m ≡ PreparedResponse.emit o s
    → (o ≡ head)
      × (s ≡ head.response_state)
      × (head.discarded ≡ false)
      × (response_fits head m ≡ true)
unfolding prepare_at_head
prepare_at_head-emit head later m h = ground arith

unasked_local :
    (os : Bool) {o : Operation} {s : RuntimeState}
    → (if os then PreparedResponse.deferred else PreparedResponse.illegal)
      ≢ PreparedResponse.emit o s
unasked_local true h = cc
unasked_local false h = cc

prepare_on-emit :
    (local_id : Option ℕ) (head : Operation) (later : List Operation) (m : BackendMessage)
    {o : Operation} {s : RuntimeState}
    → prepare_on local_id head later m ≡ PreparedResponse.emit o s
    → (o ≡ head) × (s ≡ head.response_state) × (may_answer local_id head m ≡ true)
unfolding prepare_on
prepare_on-emit none head later m h = elim (Bool-cases (is_local head.origin)) [
  | inl t ↦
      absurd
        (unasked_local (any (λ o. not (is_local o.origin) && response_fits o m) later) (rw t at h))
  | inr t ↦
      let (is_head, is_state, live, fits) = prepare_at_head-emit head later m (rw t at h) in
      (is_head, is_state, rw (live, t) fits)
]
prepare_on-emit (some id) head later m h = elim (Bool-cases (head.id == id)) [
  | inl i ↦ elim (Bool-cases (is_local head.origin)) [
    | inl t ↦
        let (is_head, is_state, live, fits) = prepare_at_head-emit head later m (rw (i, t) at h) in
        (is_head, is_state, rw (live, t, i) fits)
    | inr t ↦ absurd (cc (rw (i, t) at h))
  ]
  | inr i ↦ absurd (cc (rw i at h))
]

-- `prepare_response` picks nothing but the head, and only if it may answer.
pub prepare_response-emit :
    (p : Pipeline) (local_id : Option ℕ) (m : BackendMessage) {o : Operation} {s : RuntimeState}
    → prepare_response p local_id m ≡ PreparedResponse.emit o s
    → (later : List Operation) × (p.operations ≡ o ∷ later)
      × (s ≡ o.response_state)
      × (may_answer local_id o m ≡ true)
unfolding prepare_response prepare_with
prepare_response-emit p local_id m {o} {s} h = on_operations (is_asynchronous m) p.operations h
  where
    on_operations :
        (b : Bool) (os : List Operation)
        → prepare_with b local_id os m ≡ PreparedResponse.emit o s
        → (later : List Operation) × (os ≡ o ∷ later)
          × (s ≡ o.response_state)
          × (may_answer local_id o m ≡ true)
    on_operations true os h = absurd (ground arith)
    on_operations false [] h = absurd (ground arith)
    on_operations false (head ∷ later) h =
        let (is_head, is_state, may) = prepare_on-emit local_id head later m h in
        (later, rw is_head refl, rw is_head is_state, rw is_head may)

may_answer-fits :
    (local_id : Option ℕ) (o : Operation) (m : BackendMessage)
    → may_answer local_id o m ≡ true
    → is_some (project_internal o.response_state m) ≡ true
may_answer-fits none o m h = ground arith
may_answer-fits (some id) o m h = ground arith

-- The row of the grammar that an answer of the head takes.
pub head_row :
    (local_id : Option ℕ) (o : Operation) (m : BackendMessage)
    → may_answer local_id o m ≡ true
    → (e : Event) × (next : RuntimeState) × (project_internal o.response_state m ≡ some e)
      × (transition o.response_state e ≡ some next)
head_row local_id o m may =
    let (e, projected) = some_of _ (may_answer-fits local_id o m may) in
    let (next, moves) =
      some_of (transition o.response_state e)
        (transition-project_internal o.response_state m projected) in
    (e, next, projected, moves)
  where
    some_of : {A : Type 0} (x : Option A) → is_some x ≡ true → (a : A) × (x ≡ some a)
    some_of none h = absurd (ground arith)
    some_of (some a) h = (a, refl)
