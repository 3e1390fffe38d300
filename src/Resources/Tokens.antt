-- ===== src/Resources/Tokens.antt =====
-- src/resources.rs: a statement token that is not live never becomes live.
use pg_proto.Base.{
  ℕ, ℤ, ◌-◌, ◌^◌, ◌≡◌, ◌≢◌, ◌≤◌, ◌<◌, refl, Bool, true, false, ◌&&◌, not, if◌then◌else◌, Option,
  List, [], ◌∷◌, Bytes, is_empty, arith, Bool-cases, inl, inr, Outcome, failed,
}
use pg_proto.HashMap.{
  HashMap, bytes_key, contains_key, insert, remove, get-insert_either, get-remove,
  get-remove_either,
}
use pg_proto.Pipeline.{saturating_suc}
use pg_proto.Codec.Frontend.{Close, Parse, Bind}
use pg_proto.Resources.{
  ResourceScope, PreparedStatement, Portal, ResourceError, simple_query_boundary, transaction_ended,
  collides, allocate, prepare_allocated, prepare, is_live, bind_allocated, bind, close_statement,
  close_portal,
}
use pg_proto.Resources.Requests.{describe_statement}

-- The calls that change a scope.
pub data ResourceCall : Type 0 where
  simple_query_call transaction_call : ResourceCall
  prepare_call : Bytes → Bytes → Bytes → List ℕ → ResourceCall
  bind_call :
      PreparedStatement → Bytes → Bytes → List ℤ → List (Option Bytes) → List ℤ → ResourceCall
  close_statement_call : PreparedStatement → ResourceCall
  close_portal_call : Portal → ResourceCall

abbrev pub perform : ResourceScope → ResourceCall → ResourceScope
perform s simple_query_call = simple_query_boundary s
perform s transaction_call = transaction_ended s
perform s (prepare_call client upstream query types) = (prepare s client upstream query types).0
perform s (bind_call t client upstream formats parameters results) =
    (bind s t client upstream formats parameters results).0
perform s (close_statement_call t) = (close_statement s t).0
perform s (close_portal_call t) = (close_portal s t).0

abbrev pub after : ResourceScope → List ResourceCall → ResourceScope
after s [] = s
after s (call ∷ calls) = after (perform s call) calls

is_live-remove :
    (m : HashMap Bytes ℕ) (k name : Bytes) (g : ℕ)
    → is_live m name g ≡ false
    → is_live (remove m k) name g ≡ false
is_live-remove m k name g h = elim (Bool-cases (bytes_key.key_eq k name)) [
  | inl e ↦ rw (is_live, get-remove_either m k name, e) refl
  | inr e ↦ rw (is_live, get-remove_either m k name, e) h
]

is_live-insert :
    (m : HashMap Bytes ℕ) (k name : Bytes) (v g : ℕ)
    → v ≢ g
    → is_live m name g ≡ false
    → is_live (insert m k v) name g ≡ false
is_live-insert m k name v g ne h = elim (Bool-cases (bytes_key.key_eq k name)) [
  | inl e ↦ rw (is_live, get-insert_either m k name v, e) (ground arith)
  | inr e ↦ rw (is_live, get-insert_either m k name v, e) h
]

-- A generation of a name that was given out, and that the statements do not hold.
abbrev IsDead : Bytes → ℕ → ResourceScope → Type 0
IsDead name g s =
    (is_live s.statements name g ≡ false)
    × (g < s.next_generation)
    × (s.next_generation ≤ 2 ^ 64 - 1)

-- What holds of both branches of a test holds of the test.
both_branches {ℓ κ} :
    {R : Type ℓ} (P : R → Type κ) (b : Bool) (x y : R) → P x → P y → P (if b then x else y)
both_branches P true x y f g = f
both_branches P false x y f g = g

module _ (name : Bytes) (g : ℕ) where
  allocated :
      (s : ResourceScope)
      → IsDead name g s
      → (g < saturating_suc s.next_generation)
        × (saturating_suc s.next_generation ≤ 2 ^ 64 - 1)
        × (s.next_generation ≢ g)
  allocated s (dead, given, small) = (ground arith, ground arith, ground arith)

  prepare-IsDead :
      (s : ResourceScope) (client upstream query : Bytes) (types : List ℕ)
      → IsDead name g s
      → IsDead name g (prepare s client upstream query types).0
  unfolding prepare allocate prepare_allocated
  prepare-IsDead s client upstream query types d =
      let (given, small, ne) = allocated s d in
      let inserted : (is_live (insert s.statements upstream s.next_generation) name g ≡ false)
          × (g < saturating_suc s.next_generation)
          × (saturating_suc s.next_generation ≤ 2 ^ 64 - 1) =
        (is_live-insert s.statements upstream name s.next_generation g ne d.0, given, small) in
      both_branches
        (λ (r : ResourceScope × Outcome ℕ ResourceError).
          IsDead name g (prepare_allocated client upstream query types r).0)
        (collides s.statements s.client_statements client upstream) _ _ d
        (both_branches
          (λ (r : ResourceScope × Outcome (PreparedStatement × Parse) ResourceError).
            IsDead name g r.0)
          (contains_key s.statements upstream && not (is_empty upstream)) _ _ inserted inserted)

  bind-IsDead :
      (s : ResourceScope) (t : PreparedStatement) (client upstream : Bytes) (formats : List ℤ)
      (parameters : List (Option Bytes)) (results : List ℤ)
      → IsDead name g s
      → IsDead name g (bind s t client upstream formats parameters results).0
  unfolding bind allocate bind_allocated
  bind-IsDead s t client upstream formats parameters results d =
      let (given, small, ne) = allocated s d in
      let counted : (is_live s.statements name g ≡ false)
          × (g < saturating_suc s.next_generation)
          × (saturating_suc s.next_generation ≤ 2 ^ 64 - 1) =
        (d.0, given, small) in
      both_branches
        (λ (r : ResourceScope × Outcome (Portal × Bind) ResourceError). IsDead name g r.0)
        (not (is_live s.statements t.upstream_name t.generation)) _ _ d
        (both_branches
          (λ (r : ResourceScope × Outcome ℕ ResourceError).
            IsDead name g (bind_allocated t client upstream formats parameters results r).0)
          (collides s.portals s.client_portals client upstream) _ _ d
          (both_branches
            (λ (r : ResourceScope × Outcome (Portal × Bind) ResourceError). IsDead name g r.0)
            (contains_key s.portals upstream && not (is_empty upstream)) _ _ counted counted))

  close_statement-IsDead :
      (s : ResourceScope) (t : PreparedStatement)
      → IsDead name g s
      → IsDead name g (close_statement s t).0
  unfolding close_statement
  close_statement-IsDead s t d =
      both_branches (λ (r : ResourceScope × Outcome Close ResourceError). IsDead name g r.0)
        (not (is_live s.statements t.upstream_name t.generation)) _ _ d
        (is_live-remove s.statements t.upstream_name name g d.0, d.1, d.2)

  close_portal-IsDead :
      (s : ResourceScope) (t : Portal) → IsDead name g s → IsDead name g (close_portal s t).0
  unfolding close_portal
  close_portal-IsDead s t d =
      both_branches (λ (r : ResourceScope × Outcome Close ResourceError). IsDead name g r.0)
        (not (is_live s.portals t.upstream_name t.generation)) _ _ d d

  perform-IsDead :
      (s : ResourceScope) (call : ResourceCall) → IsDead name g s → IsDead name g (perform s call)
  unfolding simple_query_boundary transaction_ended
  perform-IsDead s simple_query_call d = (is_live-remove s.statements [] name g d.0, d.1, d.2)
  perform-IsDead s transaction_call d = d
  perform-IsDead s (prepare_call client upstream query types) d =
      prepare-IsDead s client upstream query types d
  perform-IsDead s (bind_call t client upstream formats parameters results) d =
      bind-IsDead s t client upstream formats parameters results d
  perform-IsDead s (close_statement_call t) d = close_statement-IsDead s t d
  perform-IsDead s (close_portal_call t) d = close_portal-IsDead s t d

  after-IsDead :
      (s : ResourceScope) (calls : List ResourceCall)
      → IsDead name g s
      → IsDead name g (after s calls)
  after-IsDead s [] d = d
  after-IsDead s (call ∷ calls) d = after-IsDead (perform s call) calls (perform-IsDead s call d)

removed_not_live :
    (m : HashMap Bytes ℕ) (name : Bytes) (g : ℕ) → is_live (remove m name) name g ≡ false
removed_not_live m name g = rw (is_live, get-remove m name) refl

-- After its `close_statement`, whether it succeeds or not, the token is not live.
closed :
    (s : ResourceScope) (t : PreparedStatement)
    → t.generation < s.next_generation
    → s.next_generation ≤ 2 ^ 64 - 1
    → IsDead t.upstream_name t.generation (close_statement s t).0
unfolding close_statement
closed s t given small = elim (Bool-cases (is_live s.statements t.upstream_name t.generation)) [
  | inl e ↦
      rw (e, close_statement)
        (removed_not_live s.statements t.upstream_name t.generation, given, small)
  | inr e ↦ rw (e, close_statement) (e, given, small)
]

-- A statement token whose generation the scope has given out is dead for good once it has been
-- closed: after any further calls, whatever names and tokens they take, describing it, closing it
-- again and binding it to any portal fail with `UnknownStatement` and change nothing.
pub close_statement-final :
    (s : ResourceScope) (t : PreparedStatement) (calls : List ResourceCall)
    → t.generation < s.next_generation
    → s.next_generation ≤ 2 ^ 64 - 1
    → let q = after (close_statement s t).0 calls in
      (describe_statement q t ≡ failed ResourceError.unknown_statement)
      × (close_statement q t ≡ (q, failed ResourceError.unknown_statement))
      × ((client upstream : Bytes) (formats : List ℤ) (parameters : List (Option Bytes))
            (results : List ℤ)
          → bind q t client upstream formats parameters results
            ≡ (q, failed ResourceError.unknown_statement))
unfolding describe_statement close_statement bind
close_statement-final s t calls given small =
    let q = after (close_statement s t).0 calls in
    let (dead, later, bound) =
      after-IsDead t.upstream_name t.generation (close_statement s t).0 calls
        (closed s t given small) in
    (
      rw (dead, describe_statement) refl,
      rw (dead, close_statement) refl,
      (λ client upstream formats parameters results. rw (dead, bind) refl),
    )
