-- ===== src/Intermediary/Safety.antt =====
-- src/intermediary_component.rs: no call of the backend direction panics, and each leaves the hold
-- within its limits and accounted for.
use pg_proto.Base.{
  ℕ, ◌≡◌, refl, sym, ap, ◌∙◌, true, Option, none, some, is_some, List, [], ◌∷◌, ◌++◌, arith,
  Option-cases, inl, inr, length-append, not,
}
use mathlib.Core.Path.{subst}
use pg_proto.Wire.{Wire}
use pg_proto.Codec.Backend.{BackendMessage}
use pg_proto.BackendHold.{BackendHold, retained_bytes, saturating_add, take_pending, hold_pending}
use pg_proto.Intermediary.{
  BackendMiddlewareOutput, BackendHoldLimits, BackendForwarding, Environment, Connection, value,
  Call, pure,
}
use pg_proto.Intermediary.Forwarding.{take_source, hold_source, pending_source, expected}
use pg_proto.Intermediary.Calls.{hold_decided, apply_decision, process_pending_backend}
use pg_proto.Intermediary.Invariant.{
  Limits, HasRoom, HoldFits, accumulate, accumulate-append, IsCounted, IsSound, Holds, Ends,
  Ends-map, if-Ends, Safe, Keeps, >>=-Safe, >>=-Keeps, pure-Keeps,
}
use pg_proto.Intermediary.Steps.{
  advance_backend-Keeps, intercept_downstream-Keeps, emit_backend-Keeps, emit_expansion-Keeps,
}
use pg_proto.Intermediary.Answers.{flush_local_responses-Keeps, ask_backend_operation-Keeps}

-- One more response is held where there is room for it.
held_one :
    (limits : Option BackendHoldLimits) (held : List BackendMessage) (bytes : ℕ)
    (m : BackendMessage)
    → is_some limits ≡ true
    → HoldFits limits held
    → HasRoom limits held bytes
    → HoldFits limits (held ++ m ∷ [])
held_one none held bytes m limited fits room = absurd (cc limited)
held_one (some limits) held bytes m limited (count, size, fits) (space, left) =
    (count, size, omega (arith, length-append held (m ∷ [])))

-- The hold after `m` was held.
abbrev one_more : BackendHold → BackendMessage → ℕ → BackendHold
one_more hold m bytes = record {
  pending = none;
  held = hold.held ++ m ∷ [];
  held_bytes = saturating_add hold.held_bytes bytes;
}

module _ ⦃w : Wire⦄ ⦃fixed : Limits⦄ {E : Type 0} where
  -- Sound, with a response that is being decided on.
  abbrev pub HasSource : Connection E → Type 0
  HasSource c = IsSound c × (is_some c.backend_hold.pending ≡ true)

  -- A step that leaves the hold alone, within a call.
  kept : {A : Type 0} {call : Call E A} → Keeps call → Safe HasSource call (λ a. HasSource)
  kept {call = call} keeps = record {
    run = λ c (s, h).
        Ends-map {Q = λ a. Holds c.backend_hold} (λ a. HasSource) (call c)
          (λ a d (t, e). (t, ap (λ hold. is_some hold.pending) e ∙ h))
          ((keeps.safe c.backend_hold).run c (s, refl));
  }

  done_with : {A : Type 0} {call : Call E A} → Keeps call → Safe IsSound call (λ a. IsSound)
  done_with {call = call} keeps = record {
    run = λ c s.
        Ends-map {Q = λ a. Holds c.backend_hold} (λ a. IsSound) (call c) (λ a d (t, e). t)
          ((keeps.safe c.backend_hold).run c (s, refl));
  }

  pure_sound : {A : Type 0} (a : A) → Safe {E = E} IsSound (pure a) (λ x. IsSound)
  pure_sound a = record { run = λ c s. s }

  take_source-Safe : Safe {E = E} HasSource take_source (λ d. IsSound)
  unfolding take_source take_pending
  take_source-Safe = record {
    run = λ c (s, h). record {
      valid = s.valid;
      same = s.same;
      accounted = s.accounted;
      counted = tt;
      fits = s.fits;
      room = λ h. absurd (cc h);
    };
  }

  hold_source_lem :
      (c : Connection E) (m : BackendMessage) (bytes : ℕ)
      → c.backend_hold.pending ≡ some (m, bytes)
      → hold_source c ≡ (record c { backend_hold = one_more c.backend_hold m bytes }, value tt)
  unfolding hold_source hold_pending
  hold_source_lem c m bytes e = rw (hold_source, hold_pending, e) refl

  one_more-sound :
      (c : Connection E) (m : BackendMessage) (bytes : ℕ)
      → HasSource c
      → is_some c.backend_hold_limits ≡ true
      → c.backend_hold.pending ≡ some (m, bytes)
      → IsSound (record c { backend_hold = one_more c.backend_hold m bytes })
  one_more-sound c m bytes (s, h) limited e =
      let counted : bytes ≡ retained_bytes m = subst IsCounted e s.counted in
      record {
        valid = s.valid;
        same = s.same;
        accounted =
            ap (λ b. saturating_add b bytes) s.accounted
            ∙ ap (saturating_add (accumulate 0 c.backend_hold.held)) counted
            ∙ sym (accumulate-append 0 c.backend_hold.held m);
        counted = tt;
        fits =
            held_one c.backend_hold_limits c.backend_hold.held c.backend_hold.held_bytes m limited
              s.fits (s.room h);
        room = λ h. absurd (cc h);
      }

  hold_source-Safe :
      Safe {E = E}
        (λ c. HasSource c × (is_some c.backend_hold_limits ≡ true))
        hold_source
        (λ d. IsSound)
  hold_source-Safe = record {
    run = λ c ((s, h), limited). elim (Option-cases c.backend_hold.pending) [
      | inl e ↦ absurd (cc (rw e at h))
      | inr ((m, bytes), e) ↦
          subst (Ends (λ d. IsSound)) (sym (hold_source_lem c m bytes e))
            (one_more-sound c m bytes (s, h) limited e)
    ];
  }

  expected-Ends :
      (c : Connection E) (o : Option (BackendMessage × ℕ))
      → HasSource c
      → is_some o ≡ true
      → Ends
          (λ source. HasSource)
          (expected c (elim o [ none ↦ none | some (message, bytes) ↦ some message ]))
  expected-Ends c none p h = absurd (cc h)
  expected-Ends c (some (m, bytes)) p h = p

  pending_source-Safe : Safe {E = E} HasSource pending_source (λ source. HasSource)
  unfolding pending_source
  pending_source-Safe = record { run = λ c (s, h). expected-Ends c c.backend_hold.pending (s, h) h }

  hold_decided-Safe :
      (environment : Environment E) (source : BackendMessage)
      → Safe HasSource (hold_decided environment source) (λ a. IsSound)
  unfolding hold_decided
  hold_decided-Safe environment source = record {
    run = λ c (s, h).
        if-Ends (λ a. IsSound) (not (is_some c.backend_hold_limits)) _ _ (λ e. s)
          (λ e.
            (>>=-Safe hold_source-Safe (λ d. pure_sound BackendForwarding.held)).run c
              ((s, h), ground arith));
  }

  module _ (environment : Environment E) where
    apply_decision-Safe :
        (source : BackendMessage) (decision : BackendMiddlewareOutput)
        → Safe HasSource (apply_decision environment source decision) (λ a. IsSound)
    unfolding apply_decision
    apply_decision-Safe source (BackendMiddlewareOutput.forward m) = >>=-Safe take_source-Safe (λ d.
        done_with (
          >>=-Keeps (intercept_downstream-Keeps environment m) (λ x.
            >>=-Keeps (emit_backend-Keeps environment x)
              (λ y. pure-Keeps (BackendForwarding.forwarded y)))))
    apply_decision-Safe source (BackendMiddlewareOutput.suppress m) =
        >>=-Safe take_source-Safe (λ d.
          done_with (
            >>=-Keeps (advance_backend-Keeps m) (λ y. pure-Keeps (BackendForwarding.suppressed y))))
    apply_decision-Safe source (BackendMiddlewareOutput.expand []) = record { run = λ c (s, h). s }
    apply_decision-Safe source (BackendMiddlewareOutput.expand (m ∷ ms)) =
        >>=-Safe take_source-Safe (λ d. done_with (
          >>=-Keeps (emit_expansion-Keeps environment (m ∷ ms))
            (λ ys. pure-Keeps (BackendForwarding.expanded source ys))))
    apply_decision-Safe source BackendMiddlewareOutput.hold = hold_decided-Safe environment source

    pub process_pending_backend-Safe :
        Safe HasSource (process_pending_backend environment) (λ a. IsSound)
    unfolding process_pending_backend
    process_pending_backend-Safe = >>=-Safe pending_source-Safe (λ source.
        >>=-Safe (kept (ask_backend_operation-Keeps environment source)) (λ decision.
          >>=-Safe (apply_decision-Safe source decision) (λ outcome.
            done_with
              (>>=-Keeps (flush_local_responses-Keeps environment) (λ d. pure-Keeps outcome)))))
