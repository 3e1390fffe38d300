-- ===== src/Pipeline/Invariant.antt =====
-- What every ledger satisfies that the operations of src/pipeline.rs have built.
pub mod Lists
pub mod Frontend
pub mod Backend
pub mod Responses
use pg_proto.Base.{ℕ, suc, ◌≤◌, Bool, true, false, not, List, [], ◌∷◌, ◌≡◌, All, map}
use pg_proto.Grammar.{RuntimeState}
use pg_proto.Pipeline.Types.{Operation, Pipeline, RequestState}
use pg_proto.Pipeline.Frontend.{is_inert}
use pg_proto.Pipeline.Phases.{answers}

abbrev pub ids : List Operation → List ℕ
ids = map λ o. o.id

-- The ids grow from `lo` along the list and stay below `hi`.
abbrev pub Grows : ℕ → List ℕ → ℕ → Type 0
Grows lo [] hi = lo ≤ hi
Grows lo (i ∷ is) hi = (lo ≤ i) × Grows (suc i) is hi

-- The response of each operation stands in a phase of its kind.
abbrev pub HasPhase : Operation → Type 0
HasPhase o = answers o.kind o.response_state ≡ true

-- Something is waited for at the head.
abbrev pub head_is_live : List Operation → Bool
head_is_live [] = true
head_is_live (o ∷ os) = not (is_inert o)

abbrev pub copies_in : RuntimeState → Bool
copies_in RuntimeState.simple_copy_in = true
copies_in RuntimeState.extended_copy_in = true
copies_in _ = false

abbrev pub head_copies_in : List Operation → Bool
head_copies_in [] = false
head_copies_in (o ∷ os) = copies_in o.response_state

pub record IsValid (p : Pipeline) : Type 0 where
  pub ordered : Grows 0 (ids p.operations) p.next_id
  pub phases : All HasPhase p.operations
  pub live : head_is_live p.operations ≡ true
  pub copying : p.request_state ≡ RequestState.copy_in → head_copies_in p.operations ≡ true
