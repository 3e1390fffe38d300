-- ===== src/Pipeline/Invariant/Lists.antt =====
-- What the list operations of the ledger keep.
use pg_proto.Base.{
  ℕ, suc, ◌≤◌, true, false, List, [], ◌∷◌, ◌++◌, ◌≡◌, refl, All, arith, some, Option-cases, inl,
  inr,
}
use pg_proto.Codec.Frontend.{FrontendMessage}
use pg_proto.Pipeline.Types.{Operation, OperationKind, RequestState}
use pg_proto.Pipeline.Frontend.{
  is_sync, discard_last_sync, retire_copy_sync, advance_head, remove_inert_heads,
}
use pg_proto.Pipeline.Backend.{discard_until_sync}
use pg_proto.Pipeline.Phases.{answers-external_target}
use pg_proto.Pipeline.Invariant.{ids, Grows, HasPhase, head_is_live}

pub Grows-mono : (lo lo' : ℕ) (is : List ℕ) (hi : ℕ) → lo' ≤ lo → Grows lo is hi → Grows lo' is hi
Grows-mono lo lo' [] hi h g = omega arith
Grows-mono lo lo' (i ∷ is) hi h g = (omega arith, g.1)

pub Grows-snoc :
    (lo : ℕ) (is : List ℕ) (hi : ℕ) → Grows lo is hi → Grows lo (is ++ hi ∷ []) (suc hi)
Grows-snoc lo [] hi g = (g, omega arith)
Grows-snoc lo (i ∷ is) hi g = (g.0, Grows-snoc (suc i) is hi g.1)

pub Grows-tail : (lo i : ℕ) (is : List ℕ) (hi : ℕ) → Grows lo (i ∷ is) hi → Grows lo is hi
Grows-tail lo i is hi g = Grows-mono (suc i) lo is hi (omega arith) g.1

-- Removing inert heads leaves what stands behind them.
pub remove_inert_heads-Grows :
    (lo : ℕ) (os : List Operation) (hi : ℕ)
    → Grows lo (ids os) hi
    → Grows lo (ids (remove_inert_heads os)) hi
unfolding remove_inert_heads
remove_inert_heads-Grows lo [] hi g = g
remove_inert_heads-Grows lo (o ∷ os) hi g =
    ground (arith, remove_inert_heads-Grows lo os hi (Grows-tail lo o.id (ids os) hi g))

pub remove_inert_heads-All :
    (os : List Operation) → All HasPhase os → All HasPhase (remove_inert_heads os)
unfolding remove_inert_heads
remove_inert_heads-All [] h = h
remove_inert_heads-All (o ∷ os) h = ground (arith, remove_inert_heads-All os h.1)

pub remove_inert_heads-live : (os : List Operation) → head_is_live (remove_inert_heads os) ≡ true
unfolding remove_inert_heads
remove_inert_heads-live [] = refl
remove_inert_heads-live (o ∷ os) = ground (arith, remove_inert_heads-live os)

-- A live head stays, and so does all behind it.
pub remove_inert_heads_live_lem :
    (os : List Operation) → head_is_live os ≡ true → remove_inert_heads os ≡ os
unfolding remove_inert_heads
remove_inert_heads_live_lem [] h = refl
remove_inert_heads_live_lem (o ∷ os) h = ground arith

pub ids-advance_head :
    (m : FrontendMessage) (os : List Operation) → ids (advance_head m os) ≡ ids os
unfolding advance_head
ids-advance_head m [] = refl
ids-advance_head m (o ∷ os) = refl

pub advance_head-All :
    (m : FrontendMessage) (os : List Operation) → All HasPhase os → All HasPhase (advance_head m os)
unfolding advance_head
advance_head-All m [] h = h
advance_head-All m (o ∷ os) h = (answers-external_target o.kind o.response_state m h.0, h.1)

ids-discard_last_sync :
    (os : List Operation) {os' : List Operation}
    → discard_last_sync os ≡ some os'
    → ids os' ≡ ids os
unfolding discard_last_sync
ids-discard_last_sync [] h = cc
ids-discard_last_sync (o ∷ os) h = elim (Option-cases (discard_last_sync os)) [
  | inl e ↦ ground arith
  | inr (rest, e) ↦ ground (arith, ids-discard_last_sync os e)
]

discard_last_sync-All :
    (os : List Operation) {os' : List Operation}
    → discard_last_sync os ≡ some os'
    → All HasPhase os
    → All HasPhase os'
unfolding discard_last_sync
discard_last_sync-All [] h all = cc
discard_last_sync-All (o ∷ os) h all = elim (Option-cases (discard_last_sync os)) [
  | inl e ↦ ground arith
  | inr (rest, e) ↦ ground (arith, discard_last_sync-All os e)
]

-- The head keeps its place unless it is itself the `Sync` that is marked.
discard_last_sync-live :
    (o : Operation) (os : List Operation) {os' : List Operation}
    → is_sync o.kind ≡ false
    → discard_last_sync (o ∷ os) ≡ some os'
    → head_is_live os' ≡ head_is_live (o ∷ os)
unfolding discard_last_sync
discard_last_sync-live o os h e = elim (Option-cases (discard_last_sync os)) [
  | inl e' ↦ ground arith
  | inr (rest, e') ↦ ground arith
]

pub ids-retire_copy_sync :
    (s : RequestState) (k : OperationKind) (os : List Operation)
    → ids (retire_copy_sync s k os) ≡ ids os
unfolding retire_copy_sync
ids-retire_copy_sync s k os = elim (Option-cases (discard_last_sync os)) [
  | inl e ↦ ground arith
  | inr (rest, e) ↦ ground (arith, ids-discard_last_sync os e)
]

pub retire_copy_sync-All :
    (s : RequestState) (k : OperationKind) (os : List Operation)
    → All HasPhase os
    → All HasPhase (retire_copy_sync s k os)
unfolding retire_copy_sync
retire_copy_sync-All s k os all = elim (Option-cases (discard_last_sync os)) [
  | inl e ↦ ground arith
  | inr (rest, e) ↦ ground (arith, discard_last_sync-All os e)
]

pub ids-discard_until_sync : (os : List Operation) → ids (discard_until_sync os).0 ≡ ids os
unfolding discard_until_sync
ids-discard_until_sync [] = refl
ids-discard_until_sync (o ∷ os) = ground (arith, ids-discard_until_sync os)

pub discard_until_sync-All :
    (os : List Operation) → All HasPhase os → All HasPhase (discard_until_sync os).0
unfolding discard_until_sync
discard_until_sync-All [] all = all
discard_until_sync-All (o ∷ os) all = ground (arith, discard_until_sync-All os all.1)
