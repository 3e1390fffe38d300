-- ===== src/OrderedMap.antt =====
-- `BTreeMap<Bytes, Bytes>`, as the list of its entries in the order of their keys.
use pg_proto.Base.{
  Bool, true, false, ◌&&◌, List, [], ◌∷◌, ◌++◌, ltb, ◌==◌, if◌then◌else◌, Bytes, All, arith, ◌≡◌,
  refl,
}

abbrev pub Entries : Type 0
Entries = List (Bytes × Bytes)

-- The order and the equality of byte strings.
unfoldable pub bytes_lt : Bytes → Bytes → Bool
bytes_lt xs [] = false
bytes_lt [] (y ∷ ys) = true
bytes_lt (x ∷ xs) (y ∷ ys) =
    let rest = bytes_lt xs ys in if ltb x y then true else if x == y then rest else false

unfoldable pub bytes_eq : Bytes → Bytes → Bool
bytes_eq [] [] = true
bytes_eq [] (y ∷ ys) = false
bytes_eq (x ∷ xs) [] = false
bytes_eq (x ∷ xs) (y ∷ ys) = let rest = bytes_eq xs ys in if x == y then rest else false

-- `insert`; an entry of the same key is replaced.
unfoldable pub insert : Bytes → Bytes → Entries → Entries
unfolding bytes_lt bytes_eq
insert name value [] = (name, value) ∷ []
insert name value ((n, v) ∷ rest) =
    let inserted = insert name value rest in
    if bytes_eq name n
    then (name, value) ∷ rest
    else if bytes_lt name n
    then (name, value) ∷ (n, v) ∷ rest
    else (n, v) ∷ inserted

-- `insert(..).is_some()`: the key is there already.
unfoldable pub has_key : Bytes → Entries → Bool
unfolding bytes_eq
has_key name [] = false
has_key name ((n, v) ∷ rest) =
    let found = has_key name rest in if bytes_eq name n then true else found

unfoldable pub entries_eq : Entries → Entries → Bool
unfolding bytes_eq
entries_eq [] [] = true
entries_eq [] (q ∷ qs) = false
entries_eq (p ∷ ps) [] = false
entries_eq ((n, v) ∷ ps) ((m, w) ∷ qs) =
    let rest = entries_eq ps qs in if bytes_eq n m && bytes_eq v w then rest else false

pub bytes_eq_refl : (xs : Bytes) → bytes_eq xs xs ≡ true
unfolding bytes_eq
bytes_eq_refl [] = refl
bytes_eq_refl (x ∷ xs) = ground (arith, bytes_eq_refl xs)

pub bytes_eq_lem : (xs ys : Bytes) → bytes_eq xs ys ≡ true → xs ≡ ys
unfolding bytes_eq
bytes_eq_lem [] [] h = refl
bytes_eq_lem [] (y ∷ ys) h = cc
bytes_eq_lem (x ∷ xs) [] h = cc
bytes_eq_lem (x ∷ xs) (y ∷ ys) h = ground (arith, bytes_eq_lem xs ys)

pub entries_eq_refl : (ps : Entries) → entries_eq ps ps ≡ true
unfolding entries_eq
entries_eq_refl [] = refl
entries_eq_refl ((n, v) ∷ ps) = ground (arith, bytes_eq_refl n, bytes_eq_refl v, entries_eq_refl ps)

-- A key above another is neither below it nor equal to it.
pub bytes_lt_asym :
    (xs ys : Bytes) → bytes_lt xs ys ≡ true → (bytes_lt ys xs ≡ false) × (bytes_eq ys xs ≡ false)
unfolding bytes_lt bytes_eq
bytes_lt_asym [] [] h = absurd (cc h)
bytes_lt_asym [] (y ∷ ys) h = (refl, refl)
bytes_lt_asym (x ∷ xs) [] h = absurd (cc h)
bytes_lt_asym (x ∷ xs) (y ∷ ys) h = ground (arith, bytes_lt_asym xs ys)

-- Every key of the entries is below `name`.
abbrev pub AllBelow : Bytes → Entries → Type 0
AllBelow name = All (λ (p : Bytes × Bytes). bytes_lt p.0 name ≡ true)

-- The keys grow strictly.
abbrev pub IsSorted : Entries → Type 0
IsSorted [] = Unit {0}
IsSorted (p ∷ ps) = All (λ (q : Bytes × Bytes). bytes_lt p.0 q.0 ≡ true) ps × IsSorted ps

-- A key above all others goes to the end, and is new.
pub insert-AllBelow :
    (name value : Bytes) (ps : Entries)
    → AllBelow name ps
    → (insert name value ps ≡ ps ++ (name, value) ∷ []) × (has_key name ps ≡ false)
unfolding insert has_key
insert-AllBelow name value [] h = (refl, refl)
insert-AllBelow name value ((n, v) ∷ ps) (h, hs) =
    ground (arith, bytes_lt_asym n name h, insert-AllBelow name value ps hs)
