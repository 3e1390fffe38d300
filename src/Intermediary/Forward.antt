-- ===== src/Intermediary/Forward.antt =====
-- src/intermediary_component.rs: receiving a response and passing it on.
use pg_proto.Base.{
  ℕ, ◌≡◌, refl, sym, ap, ◌∙◌, true, false, Option, none, some, is_some, not, ◌&&◌, is_empty,
}
use mathlib.Core.Path.{subst}
use pg_proto.Wire.{Wire}
use pg_proto.Codec.Backend.{BackendMessage}
use pg_proto.BackendHold.{BackendHold, set_pending, retained_bytes, clear}
use pg_proto.Intermediary.{
  BackendFlushReason, BackendBatchForwarding, ForwardError, Environment, Connection,
}
use pg_proto.Intermediary.Forwarding.{with_hold}
use pg_proto.Intermediary.Calls.{
  unless_kept, intercept_upstream, pending_is_barrier, barrier, process_backend, forward_backend,
  flush_backend_hold, prepare_backend_teardown,
}
use pg_proto.Intermediary.Invariant.{Limits, IsSound, Ends, Ends-map, if-Ends, Safe, >>=-Safe}
use pg_proto.Intermediary.Safety.{HasSource, process_pending_backend-Safe}
use pg_proto.Intermediary.Flush.{Released, flush_backend_hold_for-Safe}
use pg_proto.Intermediary.Room.{IsReady, make_room-Safe, receive-Safe}

module _ ⦃w : Wire⦄ ⦃fixed : Limits⦄ {E : Type 0} where
  module _ (environment : Environment E) where
    set_pending_lem :
        (hold : BackendHold) (m : BackendMessage)
        → hold.pending ≡ none
        → set_pending hold m ≡ some (record hold { pending = some (m, retained_bytes m) })
    unfolding set_pending
    set_pending_lem hold m e = rw (set_pending, e) refl

    pending_set :
        (c : Connection E) (e : E) (m : BackendMessage)
        → IsReady c
        → HasSource (record c {
          environment = e;
          backend_hold = record c.backend_hold { pending = some (m, retained_bytes m) };
        })
    pending_set c e m (s, idle, room) = (
      record {
        valid = s.valid;
        same = s.same;
        accounted = s.accounted;
        counted = refl;
        fits = s.fits;
        room = λ h. room;
      },
      refl,
    )

    intercept_upstream-Safe :
        (m : BackendMessage) → Safe IsReady (intercept_upstream environment m) (λ d. HasSource)
    unfolding intercept_upstream
    intercept_upstream-Safe m = record {
      run = λ c (s, idle, room).
          let (e, x) = environment.intercept_upstream c.environment m in
          subst (λ o. Ends (λ d. HasSource) (with_hold (record c { environment = e }) o))
            (sym (set_pending_lem c.backend_hold x idle)) (pending_set c e x (s, idle, room));
    }

    -- A release before a barrier leaves the pending response.
    Released-HasSource :
        (hold : BackendHold) (e : ForwardError) (outcome : BackendBatchForwarding)
        → is_some hold.pending ≡ true
        → Safe
            (Released environment hold outcome)
            (unless_kept environment e outcome)
            (λ o. HasSource)
    unfolding clear
    Released-HasSource hold e BackendBatchForwarding.kept has = record { run = λ c (s, h). s }
    Released-HasSource hold e BackendBatchForwarding.empty has = record {
      run = λ c ((s, h), is_nil). (s, ap (λ x. is_some x.pending) h ∙ has);
    }
    Released-HasSource hold e (BackendBatchForwarding.released ms) has = record {
      run = λ c (s, h). (s, ap (λ x. is_some x.pending) h ∙ has);
    }

    barrier-Safe : Safe HasSource (barrier environment) (λ d. HasSource)
    barrier-Safe = record {
      run = λ c (s, h).
          if-Ends (λ d. HasSource)
            (pending_is_barrier environment c && not (is_empty c.backend_hold.held)) _ _
            (λ e.
              (>>=-Safe {S = λ d. HasSource}
                  (flush_backend_hold_for-Safe environment c.backend_hold
                    BackendFlushReason.protocol_barrier)
                  (λ outcome.
                    >>=-Safe
                      (Released-HasSource c.backend_hold ForwardError.backend_hold_refused outcome
                        h)
                      (λ o. record { run = λ d p. p }))).run
                c (s, refl))
            (λ e. (s, h));
    }

    process_backend-Safe :
        (m : BackendMessage) → Safe IsReady (process_backend environment m) (λ a. IsSound)
    unfolding process_backend
    process_backend-Safe m =
        >>=-Safe (intercept_upstream-Safe m)
          (λ d. >>=-Safe barrier-Safe (λ d. process_pending_backend-Safe environment))

    idle_of : (o : Option (BackendMessage × ℕ)) → is_some o ≡ false → o ≡ none
    idle_of none h = refl
    idle_of (some p) h = absurd (cc h)

    released_sound :
        (hold : BackendHold) (outcome : BackendBatchForwarding) (c : Connection E)
        → Released environment hold outcome c
        → IsSound c
    released_sound hold BackendBatchForwarding.kept c (s, h) = s
    released_sound hold BackendBatchForwarding.empty c ((s, h), e) = s
    released_sound hold (BackendBatchForwarding.released ms) c (s, h) = s

    unless_kept-Safe :
        (hold : BackendHold) (outcome : BackendBatchForwarding)
        → Safe
            (Released environment hold outcome)
            (unless_kept environment ForwardError.backend_hold_refused outcome)
            (λ o. IsSound)
    unless_kept-Safe hold BackendBatchForwarding.kept = record { run = λ c (s, h). s }
    unless_kept-Safe hold BackendBatchForwarding.empty = record { run = λ c ((s, h), e). s }
    unless_kept-Safe hold (BackendBatchForwarding.released ms) = record { run = λ c (s, h). s }

    pub forward_backend-Safe : Safe IsSound (forward_backend environment) (λ a. IsSound)
    unfolding forward_backend
    forward_backend-Safe = record {
      run = λ c s.
          if-Ends (λ a. IsSound) (is_some c.backend_hold.pending) _ _
            (λ h. (process_pending_backend-Safe environment).run c (s, h))
            (λ h.
              (>>=-Safe {S = λ a. IsSound} (make_room-Safe environment)
                  (λ d. >>=-Safe (receive-Safe environment) (λ m. process_backend-Safe m))).run
                c (s, idle_of c.backend_hold.pending h));
    }

    pub flush_backend_hold-Safe : Safe IsSound (flush_backend_hold environment) (λ o. IsSound)
    unfolding flush_backend_hold
    flush_backend_hold-Safe = record {
      run = λ c s.
          Ends-map {Q = Released environment c.backend_hold} (λ o. IsSound) _
            (released_sound c.backend_hold)
            ((flush_backend_hold_for-Safe environment c.backend_hold
                BackendFlushReason.explicit).run
              c (s, refl));
    }

    pub prepare_backend_teardown-Safe :
        Safe IsSound (prepare_backend_teardown environment) (λ o. IsSound)
    unfolding prepare_backend_teardown
    prepare_backend_teardown-Safe = record {
      run = λ c s.
          (>>=-Safe {S = λ o. IsSound}
              (flush_backend_hold_for-Safe environment c.backend_hold BackendFlushReason.teardown)
              (λ outcome. unless_kept-Safe c.backend_hold outcome)).run
            c (s, refl);
    }
