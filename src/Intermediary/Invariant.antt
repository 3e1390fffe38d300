-- ===== src/Intermediary/Invariant.antt =====
-- src/intermediary_component.rs: what holds of a connection between calls, and how a call is followed
-- step by step.
use pg_proto.Base.{
  ℕ, ◌≤◌, ◌<◌, ◌≡◌, refl, Bool, true, false, if◌then◌else◌, Option, none, some, is_some, List, [],
  ◌∷◌, ◌++◌, length,
}
use pg_proto.Wire.{Wire}
use pg_proto.Codec.Backend.{BackendMessage}
use pg_proto.Pipeline.Invariant.{IsValid}
use pg_proto.BackendHold.{BackendHold, retained_bytes, saturating_add}
use pg_proto.Intermediary.{
  pure, fail, BackendHoldLimits, ForwardError, Connection, Ending, value, failed, panics, Call,
  continue_with, ◌>>=◌,
}

-- The limits are not zero and bound the number of responses held; while one is being decided on
-- there is room for it.
abbrev pub HasRoom : Option BackendHoldLimits → List BackendMessage → ℕ → Type 0
HasRoom none held bytes = Unit
HasRoom (some limits) held bytes = (length held < limits.max_messages) × (bytes < limits.max_bytes)

abbrev pub HoldFits : Option BackendHoldLimits → List BackendMessage → Type 0
HoldFits none held = held ≡ []
HoldFits (some limits) held =
    (0 < limits.max_messages) × (0 < limits.max_bytes) × (length held ≤ limits.max_messages)

module _ ⦃w : Wire⦄ where
  abbrev pub accumulate : ℕ → List BackendMessage → ℕ
  accumulate n [] = n
  accumulate n (m ∷ ms) = accumulate (saturating_add n (retained_bytes m)) ms

  pub accumulate-append :
      (n : ℕ) (ms : List BackendMessage) (m : BackendMessage)
      → accumulate n (ms ++ m ∷ []) ≡ saturating_add (accumulate n ms) (retained_bytes m)
  accumulate-append n [] m = refl
  accumulate-append n (x ∷ ms) m = accumulate-append (saturating_add n (retained_bytes x)) ms m

  abbrev pub IsCounted : Option (BackendMessage × ℕ) → Type 0
  IsCounted none = Unit
  IsCounted (some (message, bytes)) = bytes ≡ retained_bytes message

-- The limits of the connection that is followed, which nothing changes.
pub record Limits : Type 0 where
  pub limits : Option BackendHoldLimits

module _ ⦃w : Wire⦄ ⦃fixed : Limits⦄ where
  pub record IsSound {E : Type 0} (c : Connection E) : Type 0 where
    pub valid : IsValid c.pipeline
    pub same : c.backend_hold_limits ≡ fixed.limits
    pub accounted : c.backend_hold.held_bytes ≡ accumulate 0 c.backend_hold.held
    pub counted : IsCounted c.backend_hold.pending
    pub fits : HoldFits c.backend_hold_limits c.backend_hold.held
    pub room :
        is_some c.backend_hold.pending ≡ true
        → HasRoom c.backend_hold_limits c.backend_hold.held c.backend_hold.held_bytes

  -- Sound, with the hold `hold`.
  abbrev pub Holds : {E : Type 0} → BackendHold → Connection E → Type 0
  Holds hold c = IsSound c × (c.backend_hold ≡ hold)

  -- The end of a call: no panic, a sound connection after an error, and `Q` after a value.
  abbrev pub Ends : {E A : Type 0} → (A → Connection E → Type 0) → Connection E × Ending A → Type 0
  Ends Q (c, value a) = Q a c
  Ends Q (c, failed e) = IsSound c
  Ends Q (c, panics) = ⊥

  pub Ends-map :
      {E A : Type 0} {Q : A → Connection E → Type 0} (S : A → Connection E → Type 0)
      (r : Connection E × Ending A)
      → ((a : A) (c : Connection E) → Q a c → S a c)
      → Ends Q r
      → Ends S r
  Ends-map S (c, value a) f q = f a c q
  Ends-map S (c, failed e) f q = q
  Ends-map S (c, panics) f q = q

  -- Both branches of a test.
  pub if-Ends :
      {E A : Type 0} (Q : A → Connection E → Type 0) (b : Bool) (x y : Connection E × Ending A)
      → (b ≡ true → Ends Q x)
      → (b ≡ false → Ends Q y)
      → Ends Q (if b then x else y)
  if-Ends Q true x y f g = f refl
  if-Ends Q false x y f g = g refl

  pub record Safe {E A : Type 0} (P : Connection E → Type 0) (call : Call E A)
      (Q : A → Connection E → Type 0) : Type 0 where
    pub run : (c : Connection E) → P c → Ends Q (call c)

  continue_with-Ends :
      {E A B : Type 0} {Q : A → Connection E → Type 0} (S : B → Connection E → Type 0)
      (r : Connection E × Ending A) (next : A → Call E B)
      → Ends Q r
      → ((a : A) → Safe (Q a) (next a) S)
      → Ends S (continue_with r next)
  continue_with-Ends S (c, value a) next q after = (after a).run c q
  continue_with-Ends S (c, failed e) next q after = q
  continue_with-Ends S (c, panics) next q after = q

  -- The rule of `?` and of sequence.
  pub >>=-Safe :
      {E A B : Type 0} {P : Connection E → Type 0} {Q : A → Connection E → Type 0}
      {S : B → Connection E → Type 0} {first : Call E A} {next : A → Call E B}
      → Safe P first Q
      → ((a : A) → Safe (Q a) (next a) S)
      → Safe P (first >>= next) S
  >>=-Safe {S = S} {first = first} {next = next} before after = record {
    run = λ c p. continue_with-Ends S (first c) next (before.run c p) after;
  }

  -- What a step that leaves the hold alone keeps.
  pub record Keeps {E A : Type 0} (call : Call E A) : Type 0 where
    pub safe : (hold : BackendHold) → Safe (Holds hold) call (λ a. Holds hold)

  pub >>=-Keeps :
      {E A B : Type 0} {first : Call E A} {next : A → Call E B}
      → Keeps first
      → ((a : A) → Keeps (next a))
      → Keeps (first >>= next)
  >>=-Keeps before after = record {
    safe = λ hold. >>=-Safe (before.safe hold) (λ a. (after a).safe hold);
  }

  pub pure-Keeps : {E A : Type 0} (a : A) → Keeps (pure {E = E} a)
  pure-Keeps a = record { safe = λ hold. record { run = λ c p. p } }

  pub fail-Keeps : {E A : Type 0} (e : ForwardError) → Keeps (fail {E = E} {A = A} e)
  fail-Keeps e = record { safe = λ hold. record { run = λ c (s, h). s } }
