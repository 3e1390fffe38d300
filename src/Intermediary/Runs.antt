-- ===== src/Intermediary/Runs.antt =====
-- src/intermediary_component.rs: any number of calls on a connection, whatever the application and
-- the transports do.
use pg_proto.Base.{
  ℕ, ◌≡◌, ◌≢◌, ◌≤◌, refl, sym, ap, Bool-cases, inl, inr, Option, some, List, [], ◌∷◌, length, arith,
  ◌==◌, ◌||◌,
}
use mathlib.Core.Path.{subst}
use pg_proto.Wire.{Wire}
use pg_proto.Pipeline.{Pipeline}
use pg_proto.Pipeline.Invariant.{IsValid}
use pg_proto.BackendHold.{default}
use pg_proto.Intermediary.{
  BackendHoldLimits, limits_of, PendingLocalResponses, Environment, Connection, Ending, value,
  failed, panics, Call, ◌>>=◌, pure,
}
use pg_proto.Intermediary.Calls.{forward_backend, flush_backend_hold, prepare_backend_teardown}
use pg_proto.Intermediary.Invariant.{Limits, accumulate, HoldFits, IsSound, Ends, Safe, >>=-Safe}
use pg_proto.Intermediary.Forward.{
  forward_backend-Safe, flush_backend_hold-Safe, prepare_backend_teardown-Safe,
}

-- The calls that an application makes on the backend direction.
pub data BackendCall : Type 0 where
  forward_call flush_call teardown_call : BackendCall

-- A connection as it is established, with a hold of nothing.
abbrev pub established :
    {E : Type 0}
    → E
    → Pipeline
    → List PendingLocalResponses
    → Option BackendHoldLimits
    → Connection E
established e p local limits = record {
  environment = e;
  pipeline = p;
  backend_hold = default;
  backend_hold_limits = limits;
  pending_local = local;
}

limits_of_lem :
    (max_messages max_bytes : ℕ) (limits : BackendHoldLimits)
    → limits_of max_messages max_bytes ≡ some limits
    → (limits.max_messages ≡ max_messages) × HoldFits (some limits) []
unfolding limits_of
limits_of_lem max_messages max_bytes limits h =
    elim (Bool-cases (max_messages == 0 || max_bytes == 0)) [
      | inl e ↦ absurd (cc (rw (limits_of, e) at h))
      | inr e ↦
          let f : some (record { max_messages = max_messages; max_bytes = max_bytes })
              ≡ some limits =
            rw (limits_of, e) at h in
          let same : record { max_messages = max_messages; max_bytes = max_bytes } ≡ limits =
            cc f in
          let messages : limits.max_messages ≡ max_messages = sym (ap (λ l. l.max_messages) same) in
          let bytes : limits.max_bytes ≡ max_bytes = sym (ap (λ l. l.max_bytes) same) in
          (messages, (ground arith, ground arith, ground arith))
    ]

module _ ⦃w : Wire⦄ {E : Type 0} (environment : Environment E) where
  abbrev pub perform : BackendCall → Call E (Unit {0})
  perform forward_call = do outcome ← forward_backend environment; pure tt
  perform flush_call = do outcome ← flush_backend_hold environment; pure tt
  perform teardown_call = do outcome ← prepare_backend_teardown environment; pure tt

  -- The connection after the calls; an error does not end it.
  abbrev pub after : Connection E → List BackendCall → Connection E
  after c [] = c
  after c (call ∷ calls) = after (perform call c).0 calls

  abbrev pub NeverPanics : Connection E → List BackendCall → Type 0
  NeverPanics c [] = Unit
  NeverPanics c (call ∷ calls) =
      ((perform call c).1 ≢ panics) × NeverPanics (perform call c).0 calls

module _ ⦃w : Wire⦄ ⦃fixed : Limits⦄ {E : Type 0} (environment : Environment E) where
  perform-Safe : (call : BackendCall) → Safe IsSound (perform environment call) (λ d. IsSound)
  perform-Safe forward_call =
      >>=-Safe (forward_backend-Safe environment) (λ o. record { run = λ c s. s })
  perform-Safe flush_call =
      >>=-Safe (flush_backend_hold-Safe environment) (λ o. record { run = λ c s. s })
  perform-Safe teardown_call =
      >>=-Safe (prepare_backend_teardown-Safe environment) (λ o. record { run = λ c s. s })

  ended :
      (r : Connection E × Ending (Unit {0})) → Ends (λ d. IsSound) r → IsSound r.0 × (r.1 ≢ panics)
  ended (c, value a) s = (s, λ h. cc h)
  ended (c, failed e) s = (s, λ h. cc h)
  ended (c, panics) s = absurd s

  after-IsSound :
      (c : Connection E) (calls : List BackendCall)
      → IsSound c
      → NeverPanics environment c calls × IsSound (after environment c calls)
  after-IsSound c [] s = (tt, s)
  after-IsSound c (call ∷ calls) s =
      let (sound, ne) = ended (perform environment call c) ((perform-Safe call).run c s) in
      let (later, end) = after-IsSound (perform environment call c).0 calls sound in
      ((ne, later), end)

  established-IsSound :
      (e : E) (p : Pipeline) (local : List PendingLocalResponses)
      (limits : Option BackendHoldLimits)
      → IsValid p
      → HoldFits limits []
      → limits ≡ fixed.limits
      → IsSound (established e p local limits)
  unfolding default
  established-IsSound e p local limits v fits same = record {
    valid = v;
    same = same;
    accounted = refl;
    counted = tt;
    fits = fits;
    room = λ h. absurd (cc h);
  }

module _ ⦃w : Wire⦄ {E : Type 0} (environment : Environment E) where
  -- Whatever the application and the transports do, no sequence of calls on a connection that was
  -- established with a valid ledger and limits for its hold panics, an `assert!`, an `expect` or an
  -- `unreachable!` of the ledger included; no more responses are held than the limits allow, and the
  -- bytes accounted are those of the responses held.
  pub calls-IsSound :
      (e : E) (p : Pipeline) (local : List PendingLocalResponses) (max_messages max_bytes : ℕ)
      (limits : BackendHoldLimits) (calls : List BackendCall)
      → IsValid p
      → limits_of max_messages max_bytes ≡ some limits
      → let c = established e p local (some limits) in
        NeverPanics environment c calls
        × (length (after environment c calls).backend_hold.held ≤ max_messages)
        × ((after environment c calls).backend_hold.held_bytes
            ≡ accumulate 0 (after environment c calls).backend_hold.held)
  calls-IsSound e p local max_messages max_bytes limits calls v h =
      let fixed : Limits = record { limits = some limits } in
      let (is_max, fits) = limits_of_lem max_messages max_bytes limits h in
      let c = established e p local (some limits) in
      let start =
        established-IsSound ⦃fixed = fixed⦄ environment e p local (some limits) v fits refl in
      let (ne, end) = after-IsSound ⦃fixed = fixed⦄ environment c calls start in
      let bounded =
        subst (λ l. HoldFits l (after environment c calls).backend_hold.held) end.same end.fits in
      let (count, size, below) = bounded in (ne, omega (arith, is_max, below), end.accounted)
