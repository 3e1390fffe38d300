-- ===== src/Pipeline/Attribution.antt =====
-- src/pipeline.rs: the operation that a backend message is attributed to, against what
-- `accept_backend` lets the operations of the ledger answer.
use pg_proto.Base.{
  ℕ, true, false, List, [], ◌∷◌, ◌++◌, ◌≡◌, refl, ap, ◌↔◌, none, some, arith, All, Bool-cases, inl,
  inr,
}
use pg_proto.Codec.Backend.{BackendMessage}
use pg_proto.Demux.{is_asynchronous}
use pg_proto.Pipeline.Types.{Operation, Pipeline, done, BackendAction}
use pg_proto.Pipeline.Backend.{accept_backend}
use pg_proto.Pipeline.Attribute.{find_answered, backend_operation_id}
use pg_proto.Pipeline.Answers.{may_answer}
use pg_proto.Pipeline.Emission.{accept_backend_emits, accept_backend_cases}

-- The ledger that holds nothing but the operation.
abbrev pub alone : Pipeline → Operation → Pipeline
alone p o = record p { operations = o ∷ [] }

-- `accept_backend` emits the message when the operation stands alone in the ledger.
abbrev pub Answers : Pipeline → BackendMessage → Operation → Type 0
Answers p m o = (accept_backend (alone p o) m).1 ≡ done (BackendAction.emit m)

-- The first operation that answers has the id.
abbrev pub FirstAnswers : Pipeline → BackendMessage → List Operation → ℕ → Type 0
FirstAnswers p m os id =
    (before : List Operation) × (o : Operation) × (later : List Operation) × (os
      ≡ before ++ (o ∷ later))
    × All (λ b. ¬ Answers p m b) before
    × Answers p m o
    × (o.id ≡ id)

may_answer-Answers :
    (p : Pipeline) (m : BackendMessage) (o : Operation) → may_answer none o m ≡ true → Answers p m o
may_answer-Answers p m o may = accept_backend_emits (alone p o) o [] m refl may

Answers-may_answer :
    (p : Pipeline) (m : BackendMessage) (o : Operation)
    → is_asynchronous m ≡ false
    → Answers p m o
    → may_answer none o m ≡ true
Answers-may_answer p m o sync emitted = elim (accept_backend_cases (alone p o) m) [
  | inl (async, r) ↦ absurd (cc (sync, async))
  | inr (inl (head, later, at_head, may, r)) ↦ let same : o ≡ head = cc at_head in rw same may
  | inr (inr (inl r)) ↦ absurd (cc (ap (λ r. r.1) r, emitted))
  | inr (inr (inr r)) ↦ absurd (cc (ap (λ r. r.1) r, emitted))
]

find_answered-may_answer :
    (o : Operation) (os : List Operation) (m : BackendMessage)
    → may_answer none o m ≡ true
    → find_answered (o ∷ os) m ≡ some o.id
unfolding find_answered
find_answered-may_answer o os m may = ground arith

find_answered-behind :
    (o : Operation) (os : List Operation) (m : BackendMessage)
    → may_answer none o m ≡ false
    → find_answered (o ∷ os) m ≡ find_answered os m
unfolding find_answered
find_answered-behind o os m may = ground arith

module _ (p : Pipeline) (m : BackendMessage) (sync : is_asynchronous m ≡ false) where
  find_answered-FirstAnswers :
      (os : List Operation) {id : ℕ} → find_answered os m ≡ some id → FirstAnswers p m os id
  unfolding find_answered
  find_answered-FirstAnswers [] h = absurd (cc h)
  find_answered-FirstAnswers (o ∷ os) h = elim (Bool-cases (may_answer none o m)) [
    | inl t ↦
        ([], o, os, refl, tt, may_answer-Answers p m o t, cc (find_answered-may_answer o os m t, h))
    | inr t ↦
        let not_first : ¬ Answers p m o = λ x. cc (Answers-may_answer p m o sync x, t) in
        let (before, a, later, split, none_before, answers, is_id) =
          find_answered-FirstAnswers os (cc (find_answered-behind o os m t, h)) in
        (o ∷ before, a, later, ap (λ l. o ∷ l) split, (not_first, none_before), answers, is_id)
  ]

  FirstAnswers-find_answered :
      (before later : List Operation) (o : Operation)
      → All (λ b. ¬ Answers p m b) before
      → Answers p m o
      → find_answered (before ++ (o ∷ later)) m ≡ some o.id
  FirstAnswers-find_answered [] later o none_before answers =
      find_answered-may_answer o later m (Answers-may_answer p m o sync answers)
  FirstAnswers-find_answered (b ∷ before) later o (not_b, none_before) answers =
      let rest = FirstAnswers-find_answered before later o none_before answers in
      elim (Bool-cases (may_answer none b m)) [
        | inl t ↦ absurd (not_b (may_answer-Answers p m b t))
        | inr t ↦ rw (find_answered-behind b (before ++ (o ∷ later)) m t) rest
      ]

-- A backend message that is not asynchronous is attributed to an id exactly when the first operation
-- of the ledger for which `accept_backend` would emit the message, if that operation stood alone,
-- has the id.
pub backend_operation_id_iff :
    (p : Pipeline) (m : BackendMessage) (id : ℕ)
    → is_asynchronous m ≡ false
    → (backend_operation_id p m ≡ some id) ↔ FirstAnswers p m p.operations id
unfolding backend_operation_id
backend_operation_id_iff p m id sync = (
  (λ h. find_answered-FirstAnswers p m sync p.operations (rw (backend_operation_id, sync) at h)),
  (λ (before, o, later, split, none_before, answers, is_id).
      rw (sync, split, ← is_id)
        (FirstAnswers-find_answered p m sync before later o none_before answers)),
)
