-- ===== src/HashMap.antt =====
-- `HashMap<K, V>`, as the list of its entries: no operation used depends on their order.
use pg_proto.Base.{
  Bool, true, false, List, [], ◌∷◌, Option, none, some, if◌then◌else◌, is_some, arith, ◌≡◌, ◌≢◌,
  refl, Bytes, Bool-cases, inl, inr,
}
use mathlib.Core.Path.{subst}
use pg_proto.OrderedMap.{bytes_eq, bytes_eq_refl, bytes_eq_lem}

-- The derived equality of a type of keys.
pub record Key {ℓ} (K : Type ℓ) : Type ℓ where
  pub key_eq : K → K → Bool
  pub key_eq_refl : (k : K) → key_eq k k ≡ true
  pub key_eq_lem : (k l : K) → key_eq k l ≡ true → k ≡ l

instance pub bytes_key : Key Bytes
bytes_key = record { key_eq = bytes_eq; key_eq_refl = bytes_eq_refl; key_eq_lem = bytes_eq_lem }

abbrev pub HashMap {ℓ} : Type ℓ → Type ℓ → Type ℓ
HashMap K V = List (K × V)

pub key_eq_other {ℓ} : {K : Type ℓ} ⦃key : Key K⦄ (k l : K) → k ≢ l → key.key_eq k l ≡ false
key_eq_other ⦃key = key⦄ k l other = elim (Bool-cases (key.key_eq k l)) [
  | inl e ↦ elim (other (key.key_eq_lem k l e)) [ ]
  | inr e ↦ e
]

pub key_eq_differs {ℓ} : {K : Type ℓ} ⦃key : Key K⦄ (k l : K) → key.key_eq k l ≡ false → k ≢ l
key_eq_differs ⦃key = key⦄ k l e same =
    let equal : key.key_eq k l ≡ true =
      subst (λ x. key.key_eq k x ≡ true) same (key.key_eq_refl k) in
    cc

module _ {ℓ} {K V : Type ℓ} ⦃key : Key K⦄ where
  unfoldable pub get : HashMap K V → K → Option V
  get [] k = none
  get ((l, v) ∷ rest) k = let found = get rest k in if key.key_eq l k then some v else found

  unfoldable pub contains_key : HashMap K V → K → Bool
  unfolding get
  contains_key entries k = is_some (get entries k)

  unfoldable pub remove : HashMap K V → K → HashMap K V
  remove [] k = []
  remove ((l, v) ∷ rest) k =
      let removed = remove rest k in if key.key_eq l k then removed else (l, v) ∷ removed

  -- The value that was there before is `get` of the map before.
  unfoldable pub insert : HashMap K V → K → V → HashMap K V
  unfolding remove
  insert entries k v = (k, v) ∷ remove entries k

  -- `retain`, by a test on the values.
  unfoldable pub retain : HashMap K V → (V → Bool) → HashMap K V
  retain [] keep = []
  retain ((l, v) ∷ rest) keep =
      let kept = retain rest keep in if keep v then (l, v) ∷ kept else kept

  pub get-remove : (entries : HashMap K V) (k : K) → get (remove entries k) k ≡ none
  unfolding get remove
  get-remove [] k = refl
  get-remove ((l, v) ∷ rest) k = ground (arith, get-remove rest k)

  pub get-remove_other :
      (entries : HashMap K V) (k l : K) → k ≢ l → get (remove entries k) l ≡ get entries l
  unfolding get remove
  get-remove_other [] k l other = refl
  get-remove_other ((m, v) ∷ rest) k l other =
      let same = key.key_eq_lem m k in
      let differs = key_eq_other k l other in ground (arith, get-remove_other rest k l other)

  pub get-insert : (entries : HashMap K V) (k : K) (v : V) → get (insert entries k v) k ≡ some v
  unfolding get insert
  get-insert entries k v = rw (key.key_eq_refl k) refl

  pub get-insert_other :
      (entries : HashMap K V) (k l : K) (v : V) → k ≢ l → get (insert entries k v) l ≡ get entries l
  unfolding get insert
  get-insert_other entries k l v other =
      rw (key_eq_other k l other) (get-remove_other entries k l other)

  pub get-remove_either :
      (entries : HashMap K V) (k l : K)
      → get (remove entries k) l ≡ (if key.key_eq k l then none else get entries l)
  get-remove_either entries k l = elim (Bool-cases (key.key_eq k l)) [
    | inl e ↦
        rw e (
          subst (λ x. get (remove entries k) x ≡ none) (key.key_eq_lem k l e)
            (get-remove entries k))
    | inr e ↦ rw e (get-remove_other entries k l (key_eq_differs k l e))
  ]

  pub get-insert_either :
      (entries : HashMap K V) (k l : K) (v : V)
      → get (insert entries k v) l ≡ (if key.key_eq k l then some v else get entries l)
  get-insert_either entries k l v = elim (Bool-cases (key.key_eq k l)) [
    | inl e ↦ rw e (
        subst (λ x. get (insert entries k v) x ≡ some v) (key.key_eq_lem k l e)
          (get-insert entries k v))
    | inr e ↦ rw e (get-insert_other entries k l v (key_eq_differs k l e))
  ]
