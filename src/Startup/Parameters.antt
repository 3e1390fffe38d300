-- ===== src/Startup/Parameters.antt =====
-- src/startup.rs: the loop over the parameters reads back what the encoder wrote.
use pg_proto.Base.{
  ℕ, zero, suc, ◌<◌, ◌≡◌, ◌≢◌, refl, ap, ◌∙◌, [], ◌∷◌, ◌++◌, arith, All, All-append, length, Bytes,
  true, append_assoc, append-nil, length-append, take-append_length, drop-append_length, ok,
  >>=-eq-ok,
}
use pg_proto.OrderedMap.{Entries, bytes_lt, AllBelow, IsSorted, insert-AllBelow}
use pg_proto.Codec.Primitives.{contains_nul}
use pg_proto.Codec.Primitives.Inverse.{HasNoNul, cstr, position_nul-cstr, encode_all}
use pg_proto.Startup.{put_cstr, take_cstr, put_parameters, take_parameters}

take_cstr-cstr_startup : (v rest : Bytes) → HasNoNul v → take_cstr (cstr v ++ rest) ≡ ok (v, rest)
unfolding take_cstr
take_cstr-cstr_startup v rest h = rw (append_assoc v (0 ∷ []) rest) (
    rw (position_nul-cstr v rest h, take_cstr)
      (rw (take-append_length v (0 ∷ rest), drop-append_length v (0 ∷ rest))))

put_cstr-eq-ok_startup :
    (v body : Bytes) {b : Bytes} → put_cstr v body ≡ ok b → HasNoNul v × (b ≡ body ++ cstr v)
unfolding put_cstr
put_cstr-eq-ok_startup v body h = ground (arith, append_assoc body v (0 ∷ []))

-- The bytes of a parameter, and what the encoder takes.
abbrev pub parameter_bytes : Bytes × Bytes → Bytes
parameter_bytes p = cstr p.0 ++ cstr p.1

abbrev pub IsParameter : Bytes × Bytes → Type 0
IsParameter p = HasNoNul p.0 × HasNoNul p.1

-- An empty name is the terminator of the list.
abbrev pub IsNamed : Entries → Type 0
IsNamed = All (λ (p : Bytes × Bytes). p.0 ≢ [])

pub put_parameters-eq-ok :
    (ps : Entries) (body : Bytes) {b : Bytes}
    → put_parameters ps body ≡ ok b
    → All IsParameter ps × (b ≡ body ++ encode_all parameter_bytes ps)
unfolding put_parameters
put_parameters-eq-ok [] body h = (tt, ground (arith, append-nil body))
put_parameters-eq-ok ((n, v) ∷ ps) body h =
    let (b1, w1, h1) = >>=-eq-ok (put_cstr n body) _ h in
    let (b2, w2, h2) = >>=-eq-ok (put_cstr v b1) _ h1 in
    let (hn, e1) = put_cstr-eq-ok_startup n body w1 in
    let (hv, e2) = put_cstr-eq-ok_startup v b1 w2 in
    let (all, e3) = put_parameters-eq-ok ps b2 h2 in
    (
      ((hn, hv), all),
      e3
          ∙ ap (λ t. t ++ encode_all parameter_bytes ps) (e2 ∙ ap (λ t. t ++ cstr v) e1)
          ∙ three body (cstr n) (cstr v) (encode_all parameter_bytes ps),
    )
  where
    three : (a b c d : Bytes) → ((a ++ b) ++ c) ++ d ≡ a ++ ((b ++ c) ++ d)
    three a b c d = simp append_assoc

-- One round of the loop, on a new parameter above all that were read.
take_parameter_step :
    (fuel : ℕ) (acc : Entries) (n v rest : Bytes)
    → n ≢ []
    → HasNoNul n
    → HasNoNul v
    → AllBelow n acc
    → take_parameters (suc fuel) acc (cstr n ++ (cstr v ++ rest))
      ≡ take_parameters fuel (acc ++ (n, v) ∷ []) rest
unfolding take_parameters contains_nul
take_parameter_step fuel acc [] v rest ne hn hv below = absurd (ne refl)
take_parameter_step fuel acc (zero ∷ n) v rest ne hn hv below = absurd (cc hn)
take_parameter_step fuel acc (suc b ∷ n) v rest ne hn hv below =
    let (inserted, new) = insert-AllBelow (suc b ∷ n) v acc below in
    rw (take_cstr-cstr_startup (suc b ∷ n) (cstr v ++ rest) hn)
      (rw (take_cstr-cstr_startup v rest hv) (rw (inserted, new) refl))

-- Each parameter is above all that were read before it.
abbrev pub AllAbove : Entries → Entries → Type 0
AllAbove acc = All (λ (p : Bytes × Bytes). AllBelow p.0 acc)

AllAbove-snoc :
    (acc : Entries) (p : Bytes × Bytes) (ps : Entries)
    → AllAbove acc ps
    → All (λ (q : Bytes × Bytes). bytes_lt p.0 q.0 ≡ true) ps
    → AllAbove (acc ++ p ∷ []) ps
AllAbove-snoc acc p [] hs ks = tt
AllAbove-snoc acc p (q ∷ ps) (h, hs) (k, ks) = (
  All-append (λ (r : Bytes × Bytes). bytes_lt r.0 q.0 ≡ true) acc (p ∷ []) h (k, tt),
  AllAbove-snoc acc p ps hs ks,
)

pub take_parameters-parameters :
    (fuel : ℕ) (acc ps : Entries) (rest : Bytes)
    → length ps < fuel
    → All IsParameter ps
    → IsNamed ps
    → IsSorted ps
    → AllAbove acc ps
    → take_parameters fuel acc (encode_all parameter_bytes ps ++ (0 ∷ rest)) ≡ ok (acc ++ ps, rest)
unfolding take_parameters
take_parameters-parameters zero acc ps rest h all named sorted above = absurd (omega arith)
take_parameters-parameters (suc fuel) acc [] rest h all named sorted above =
    rw (append-nil acc) refl
take_parameters-parameters (suc fuel) acc ((n, v) ∷ ps) rest h ((hn, hv), all) (ne, named)
      (first, sorted) (below, above) =
    rw (four (cstr n) (cstr v) (encode_all parameter_bytes ps) (0 ∷ rest)) (
      take_parameter_step fuel acc n v (encode_all parameter_bytes ps ++ (0 ∷ rest)) ne hn hv below
      ∙ take_parameters-parameters fuel (acc ++ (n, v) ∷ []) ps rest (omega arith) all named sorted
          (AllAbove-snoc acc (n, v) ps above first)
      ∙ ap (λ es. ok (es, rest)) (append_assoc acc ((n, v) ∷ []) ps))
  where
    four : (a b c d : Bytes) → ((a ++ b) ++ c) ++ d ≡ a ++ (b ++ (c ++ d))
    four a b c d = simp append_assoc

pub AllAbove-empty : (ps : Entries) → AllAbove [] ps
AllAbove-empty [] = tt
AllAbove-empty (p ∷ ps) = (tt, AllAbove-empty ps)

pub fuel_enough :
    (ps : Entries) → length ps < suc (length (encode_all parameter_bytes ps ++ (0 ∷ [])))
fuel_enough [] = omega arith
fuel_enough (p ∷ ps) = omega (
  arith,
  fuel_enough ps,
  length-append (encode_all parameter_bytes (p ∷ ps)) (0 ∷ []),
  length-append (encode_all parameter_bytes ps) (0 ∷ []),
  length-append (parameter_bytes p) (encode_all parameter_bytes ps),
  length-append (cstr p.0) (cstr p.1),
  length-append p.0 (0 ∷ []),
)
