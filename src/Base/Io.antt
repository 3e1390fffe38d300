-- ===== src/Base/Io.antt =====
-- `io::Result` and `io::Error`: the kind and the message, with the pieces that `format!` puts in.
use Prim.Native.Nat.{ℕ}
use Prim.Native.String.{String}
use mathlib.Core.Path.{◌≡◌, refl}
use mathlib.Core.Bool.{Bool, true, false}
use mathlib.Core.Logic.{◌⊎◌, inl, inr}

pub data ErrorKind : Type 0 where
  invalid_input invalid_data : ErrorKind

-- `in_message t m` is the text `message tag 0x{t}: {m}`; `about d s` is `{d} {s}`; `unknown d t` is
-- `unknown {d} message tag 0x{t}`.
pub data Message : Type 0 where
  text : String → Message
  about : String → String → Message
  unknown : String → ℕ → Message
  in_message : ℕ → Message → Message

pub data IoError : Type 0 where
  io_error : ErrorKind → Message → IoError

-- `io::Result`.
pub data Result {κ} (T : Type κ) : Type κ where
  ok : T → Result T
  err : IoError → Result T

-- `Result::map`.
abbrev pub map_ok {ℓ κ} : {A : Type ℓ} {B : Type κ} → (A → B) → Result A → Result B
map_ok f (ok a) = ok (f a)
map_ok f (err e) = err e

-- The `?` of the source.
abbrev pub ◌>>=◌ {ℓ κ} : {T : Type ℓ} {U : Type κ} → Result T → (T → Result U) → Result U
ok value >>= next = next value
err failure >>= next = err failure

abbrev pub is_ok {ℓ} : {A : Type ℓ} → Result A → Bool
is_ok (ok a) = true
is_ok (err e) = false

-- `?` on a check that returns nothing.
abbrev pub ◌>>◌ {κ} : {U : Type κ} → Result (Unit {0}) → Result U → Result U
check >> rest = check >>= λ done. rest

infixl 5 ◌>>=◌ ◌>>◌
-- What a chain that succeeds went through.
pub >>=-eq-ok {ℓ κ} :
    {T : Type ℓ} {U : Type κ} (first : Result T) (next : T → Result U) {result : U}
    → (first >>= next) ≡ ok result
    → (value : T) × (first ≡ ok value) × (next value ≡ ok result)
>>=-eq-ok (err failure) next h = cc
>>=-eq-ok (ok value) next h = (value, refl, h)

pub map_ok-eq-ok {ℓ κ} :
    {A : Type ℓ} {B : Type κ} (m : Result A) (f : A → B) {b : B}
    → map_ok f m ≡ ok b
    → (a : A) × (m ≡ ok a) × (f a ≡ b)
map_ok-eq-ok (ok a) f h = (a, refl, cc)
map_ok-eq-ok (err e) f h = cc

pub Result-cases {ℓ} :
    {A : Type ℓ} (r : Result A) → ((a : A) × (r ≡ ok a)) ⊎ ((e : IoError) × (r ≡ err e))
Result-cases (ok a) = inl (a, refl)
Result-cases (err e) = inr (e, refl)
