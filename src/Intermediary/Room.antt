-- ===== src/Intermediary/Room.antt =====
-- src/intermediary_component.rs: making room for a response, and receiving it.
use pg_proto.Base.{
  ◌≡◌, refl, sym, ap, ◌∙◌, false, Option, none, some, [], arith, Option-cases, inl, inr,
}
use mathlib.Core.Path.{subst}
use pg_proto.Wire.{Wire}
use pg_proto.Codec.Backend.{BackendMessage}
use pg_proto.BackendHold.{BackendHold, clear}
use pg_proto.Intermediary.{
  BackendFlushReason, BackendHoldLimits, BackendBatchForwarding, ForwardError, Environment,
  Connection,
}
use pg_proto.Intermediary.Forwarding.{is_at, backend_hold_is_full}
use pg_proto.Intermediary.Calls.{unless_kept, received, receive, make_room}
use pg_proto.Intermediary.Invariant.{
  Limits, HasRoom, accumulate, IsSound, Ends, if-Ends, Safe, >>=-Safe,
}
use pg_proto.Intermediary.Steps.{moved}
use pg_proto.Intermediary.Flush.{Released, room_empty, flush_backend_hold_for-Safe}

room_below :
    (limits : BackendHoldLimits) (hold : BackendHold)
    → is_at limits hold ≡ false
    → HasRoom (some limits) hold.held hold.held_bytes
room_below limits hold h = ground arith

module _ ⦃w : Wire⦄ ⦃fixed : Limits⦄ {E : Type 0} where
  -- Sound, with nothing being decided on and room for one more response.
  abbrev pub IsIdle : Connection E → Type 0
  IsIdle c = IsSound c × (c.backend_hold.pending ≡ none)

  abbrev pub IsReady : Connection E → Type 0
  IsReady c =
      IsSound c
      × (c.backend_hold.pending ≡ none)
      × HasRoom c.backend_hold_limits c.backend_hold.held c.backend_hold.held_bytes

  not_full :
      (c : Connection E)
      → backend_hold_is_full c ≡ false
      → HasRoom c.backend_hold_limits c.backend_hold.held c.backend_hold.held_bytes
  unfolding backend_hold_is_full
  not_full c h = elim (Option-cases c.backend_hold_limits) [
    | inl e ↦ rw (e, HasRoom) tt
    | inr (limits, e) ↦
        subst (λ l. HasRoom l c.backend_hold.held c.backend_hold.held_bytes) (sym e)
          (room_below limits c.backend_hold (rw (backend_hold_is_full, e) at h))
  ]

  emptied :
      (c : Connection E)
      → IsSound c
      → c.backend_hold.held ≡ []
      → HasRoom c.backend_hold_limits c.backend_hold.held c.backend_hold.held_bytes
  emptied c s e =
      let bytes : c.backend_hold.held_bytes ≡ 0 = s.accounted ∙ ap (accumulate 0) e in
      subst (λ ms. HasRoom c.backend_hold_limits ms c.backend_hold.held_bytes) (sym e)
        (subst (HasRoom c.backend_hold_limits []) (sym bytes)
          (room_empty c.backend_hold_limits c.backend_hold.held s.fits))

  module _ (environment : Environment E) where
    -- After a release that was not refused the hold is empty.
    Released-IsReady :
        (hold : BackendHold) (e : ForwardError) (outcome : BackendBatchForwarding)
        → hold.pending ≡ none
        → Safe
            (Released environment hold outcome)
            (unless_kept environment e outcome)
            (λ o. IsReady)
    unfolding clear
    Released-IsReady hold e BackendBatchForwarding.kept none_pending = record {
      run = λ c (s, h). s;
    }
    Released-IsReady hold e BackendBatchForwarding.empty none_pending = record {
      run = λ c ((s, h), is_nil).
          (s, ap (λ x. x.pending) h ∙ none_pending, emptied c s (ap (λ x. x.held) h ∙ is_nil));
    }
    Released-IsReady hold e (BackendBatchForwarding.released ms) none_pending = record {
      run = λ c (s, h). (s, ap (λ x. x.pending) h ∙ none_pending, emptied c s (ap (λ x. x.held) h));
    }

    pub make_room-Safe : Safe IsIdle (make_room environment) (λ d. IsReady)
    make_room-Safe = record {
      run = λ c (s, h).
          if-Ends (λ d. IsReady) (backend_hold_is_full c) _ _
            (λ full.
              (>>=-Safe {S = λ d. IsReady}
                  (flush_backend_hold_for-Safe environment c.backend_hold
                    BackendFlushReason.capacity)
                  (λ outcome.
                    >>=-Safe
                      (Released-IsReady c.backend_hold ForwardError.backend_hold_capacity outcome h)
                      (λ o. record { run = λ d p. p }))).run
                c (s, refl))
            (λ below. (s, h, not_full c below));
    }

    received-Ready :
        (c : Connection E) (r : E × Option BackendMessage)
        → IsReady c
        → Ends (λ m. IsReady) (received environment c r)
    received-Ready c (e, some m) (s, h, r) = (moved c e c.pipeline c.pending_local s s.valid, h, r)
    received-Ready c (e, none) (s, h, r) = moved c e c.pipeline c.pending_local s s.valid

    pub receive-Safe : Safe IsReady (receive environment) (λ m. IsReady)
    unfolding receive
    receive-Safe = record {
      run = λ c p. received-Ready c (environment.receive_wire_raw c.environment) p;
    }
