-- ===== src/Pipeline/Invariant/Backend.antt =====
-- Emitting a response keeps the ledger valid, and no response makes it panic.
use pg_proto.Base.{
  ℕ, Bool, true, false, List, ◌∷◌, ◌≡◌, ◌≢◌, sym, ◌∙◌, All, arith, Option, none, some, Bool-cases,
  inl, inr, ◌⊎◌,
}
use mathlib.Core.Path.{subst}
use pg_proto.Codec.Backend.{BackendMessage}
use pg_proto.Grammar.{RuntimeState, Event, project_internal, transition}
use pg_proto.Pipeline.Types.{Operation, OperationKind, Pipeline, RequestState}
use pg_proto.Pipeline.Classify.{response_is_terminal, response_copy_state}
use pg_proto.Pipeline.Frontend.{remove_inert_heads}
use pg_proto.Pipeline.Backend.{pop_head, commit_emit, is_error, follow_copy}
use pg_proto.Pipeline.Phases.{answers, is_final}
use pg_proto.Pipeline.Rows.{response_is_terminal-is_final}
use pg_proto.Pipeline.Invariant.{ids, Grows, HasPhase, head_is_live, copies_in, IsValid}
use pg_proto.Pipeline.Invariant.Lists.{
  Grows-tail, remove_inert_heads-Grows, remove_inert_heads-All, remove_inert_heads-live,
  remove_inert_heads_live_lem, ids-discard_until_sync, discard_until_sync-All,
}

-- The backend says nothing while it waits for the data of a COPY IN.
pub copies_in-silent :
    (s : RuntimeState) (m : BackendMessage) → copies_in s ≡ true → project_internal s m ≡ none
unfolding project_internal
copies_in-silent s m h = ground arith

final_no_copy : (s : RuntimeState) → is_final s ≡ true → response_copy_state s ≡ none
unfolding is_final response_copy_state
final_no_copy s h = ground arith

copy_state-copies_in :
    (s : RuntimeState) → response_copy_state s ≡ some RequestState.copy_in → copies_in s ≡ true
unfolding response_copy_state
copy_state-copies_in s h = ground arith

follow_copy_cases :
    (c : Option RequestState) (s : RequestState)
    → follow_copy c s ≡ RequestState.copy_in
    → (c ≡ some RequestState.copy_in) ⊎ (s ≡ RequestState.copy_in)
follow_copy_cases c s h = ground arith

-- `pop_head` leaves the operations behind the head, some of them marked.
pop_head-Grows :
    (p : Pipeline) (k : OperationKind) (error : Bool) (later : List Operation) (lo hi : ℕ)
    → Grows lo (ids later) hi
    → Grows lo (ids (pop_head p k error later).operations) hi
unfolding pop_head
pop_head-Grows p k error later lo hi g =
    ground (arith, subst (λ is. Grows lo is hi) (sym (ids-discard_until_sync later)) g)

pop_head-All :
    (p : Pipeline) (k : OperationKind) (error : Bool) (later : List Operation)
    → All HasPhase later
    → All HasPhase (pop_head p k error later).operations
unfolding pop_head
pop_head-All p k error later all = ground (arith, discard_until_sync-All later all)

pop_head-copy_in :
    (p : Pipeline) (k : OperationKind) (error : Bool) (later : List Operation)
    → (pop_head p k error later).request_state ≡ RequestState.copy_in
    → p.request_state ≡ RequestState.copy_in
unfolding pop_head
pop_head-copy_in p k error later h = ground arith

next_id-pop_head :
    (p : Pipeline) (k : OperationKind) (error : Bool) (later : List Operation)
    → (pop_head p k error later).next_id ≡ p.next_id
unfolding pop_head
next_id-pop_head p k error later = ground arith

-- The head `head` of `p` answers with `m`, which leads its response to `next`.
module _ (p : Pipeline) (head : Operation) (later : List Operation) (m : BackendMessage) (e : Event)
    (next : RuntimeState) (v : IsValid p) (at_head : p.operations ≡ head ∷ later)
    (projected : project_internal head.response_state m ≡ some e)
    (moves : transition head.response_state e ≡ some next) where
  valid_ids : Grows 0 (ids (head ∷ later)) p.next_id
  valid_ids = subst (λ os. Grows 0 (ids os) p.next_id) at_head v.ordered

  valid_phases : All HasPhase (head ∷ later)
  valid_phases = subst (All HasPhase) at_head v.phases

  not_copying : p.request_state ≢ RequestState.copy_in
  not_copying h = cc (copies_in-silent head.response_state m (rw at_head at (v.copying h)))

  row :
      (response_is_terminal head.kind m ≡ is_final next)
      × (response_is_terminal head.kind m ≡ false → answers head.kind next ≡ true)
  row = response_is_terminal-is_final head.kind head.response_state m valid_phases.0 projected moves

  terminal_copying :
      response_is_terminal head.kind m ≡ true
      → follow_copy
          (response_copy_state next)
          (pop_head p head.kind (is_error m) later).request_state
        ≢ RequestState.copy_in
  terminal_copying t h = elim (follow_copy_cases (response_copy_state next) _ h) [
    | inl c ↦ cc (final_no_copy next (sym row.0 ∙ t))
    | inr c ↦ not_copying (pop_head-copy_in p head.kind (is_error m) later c)
  ]

  terminal_case :
      response_is_terminal head.kind m ≡ true → IsValid (commit_emit p head later next m)
  unfolding commit_emit
  terminal_case t = rw t (record {
    ordered =
        remove_inert_heads-Grows 0 (pop_head p head.kind (is_error m) later).operations
          (pop_head p head.kind (is_error m) later).next_id
          (subst (λ n. Grows 0 (ids (pop_head p head.kind (is_error m) later).operations) n)
            (sym (next_id-pop_head p head.kind (is_error m) later))
            (pop_head-Grows p head.kind (is_error m) later 0 p.next_id
              (Grows-tail 0 head.id (ids later) p.next_id valid_ids)));
    phases =
        remove_inert_heads-All (pop_head p head.kind (is_error m) later).operations
          (pop_head-All p head.kind (is_error m) later valid_phases.1);
    live = remove_inert_heads-live (pop_head p head.kind (is_error m) later).operations;
    copying = λ h. absurd (terminal_copying t h);
  })

  moved_head : Operation
  moved_head = record head { response_state = next }

  moved_live : remove_inert_heads (moved_head ∷ later) ≡ moved_head ∷ later
  unfolding moved_head
  moved_live =
      remove_inert_heads_live_lem (moved_head ∷ later)
        (subst (λ os. head_is_live os ≡ true) at_head v.live)

  open_case : response_is_terminal head.kind m ≡ false → IsValid (commit_emit p head later next m)
  unfolding commit_emit moved_head
  open_case t = rw t (record {
    ordered = rw moved_live valid_ids;
    phases = rw moved_live (row.1 t, valid_phases.1);
    live = remove_inert_heads-live (moved_head ∷ later);
    copying = λ h. rw moved_live (elim (follow_copy_cases (response_copy_state next) _ h) [
      | inl c ↦ copy_state-copies_in next c
      | inr c ↦ absurd (not_copying c)
    ]);
  })

  pub commit_emit-IsValid : IsValid (commit_emit p head later next m)
  commit_emit-IsValid = elim (Bool-cases (response_is_terminal head.kind m)) [
    | inl t ↦ terminal_case t
    | inr t ↦ open_case t
  ]
