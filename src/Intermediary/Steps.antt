-- ===== src/Intermediary/Steps.antt =====
-- src/intermediary_component.rs: the steps of the backend direction that leave the hold alone.
use pg_proto.Base.{ℕ, ◌≢◌, refl, Bool, true, false, Option, none, some, List, [], ◌∷◌}
use pg_proto.Wire.{Wire}
use pg_proto.Codec.Backend.{BackendMessage}
use pg_proto.Grammar.{RuntimeState, Event}
use pg_proto.Pipeline.{
  Pipeline, accept_backend, BackendAction, BackendOutcome, done, rejected, panicked,
  backend_transition_id, backend_operation_id,
}
use pg_proto.Pipeline.Invariant.{IsValid}
use pg_proto.Pipeline.Invariant.Responses.{accept_backend-IsValid}
use pg_proto.BackendHold.{BackendHold}
use pg_proto.Intermediary.{PendingLocalResponses, Environment, Connection, ◌>>=◌, ◌>>◌, pure}
use pg_proto.Intermediary.Forwarding.{
  after_accept, advance_backend, sent, send, send_all, intercept_downstream, intercept_all,
  observed, emit_backend, emit_expansion,
}
use pg_proto.Intermediary.Invariant.{Limits, IsSound, Holds, Ends, Keeps, >>=-Keeps, pure-Keeps}

module _ ⦃w : Wire⦄ ⦃fixed : Limits⦄ {E : Type 0} where
  -- A connection that differs in other fields than the hold and the limits.
  pub moved :
      (c : Connection E) (e : E) (p : Pipeline) (local : List PendingLocalResponses)
      → IsSound c
      → IsValid p
      → IsSound (record c { environment = e; pipeline = p; pending_local = local })
  moved c e p local s v = record {
    valid = v;
    same = s.same;
    accounted = s.accounted;
    counted = s.counted;
    fits = s.fits;
    room = s.room;
  }

  after_accept-Ends :
      (c : Connection E) (hold : BackendHold) (r : Pipeline × BackendOutcome)
      → Holds hold c
      → IsValid r.0
      → r.1 ≢ panicked
      → Ends (λ m. Holds hold) (after_accept c r)
  after_accept-Ends c hold (p, done (BackendAction.emit m)) (s, h) v ne =
      (moved c c.environment p c.pending_local s v, h)
  after_accept-Ends c hold (p, done (BackendAction.deferred m)) (s, h) v ne =
      moved c c.environment p c.pending_local s v
  after_accept-Ends c hold (p, rejected e) (s, h) v ne = moved c c.environment p c.pending_local s v
  after_accept-Ends c hold (p, panicked) (s, h) v ne = absurd (ne refl)

  pub advance_backend-Keeps : (m : BackendMessage) → Keeps {E = E} (advance_backend m)
  unfolding advance_backend
  advance_backend-Keeps m = record {
    safe = λ hold. record {
      run = λ c (s, h).
          let (v, ne) = accept_backend-IsValid c.pipeline m s.valid in
          after_accept-Ends c hold (accept_backend c.pipeline m) (s, h) v ne;
    };
  }

  module _ (environment : Environment E) where
    sent-Ends :
        (c : Connection E) (hold : BackendHold) (r : E × Bool)
        → Holds hold c
        → Ends (λ done. Holds hold) (sent environment c r)
    sent-Ends c hold (e, true) (s, h) = (moved c e c.pipeline c.pending_local s s.valid, h)
    sent-Ends c hold (e, false) (s, h) = moved c e c.pipeline c.pending_local s s.valid

    pub send-Keeps : (m : BackendMessage) → Keeps (send environment m)
    unfolding send
    send-Keeps m = record {
      safe = λ hold. record {
        run = λ c p. sent-Ends c hold (environment.send_wire_raw c.environment m) p;
      };
    }

    pub send_all-Keeps : (ms : List BackendMessage) → Keeps (send_all environment ms)
    unfolding send_all
    send_all-Keeps [] = pure-Keeps tt
    send_all-Keeps (m ∷ ms) = >>=-Keeps (send-Keeps m) (λ d. send_all-Keeps ms)

    pub intercept_downstream-Keeps :
        (m : BackendMessage) → Keeps (intercept_downstream environment m)
    unfolding intercept_downstream
    intercept_downstream-Keeps m = record {
      safe = λ hold. record {
        run = λ c (s, h). (
          moved c (environment.intercept_downstream c.environment m).0 c.pipeline c.pending_local s
              s.valid,
          h,
        );
      };
    }

    pub intercept_all-Keeps : (ms : List BackendMessage) → Keeps (intercept_all environment ms)
    unfolding intercept_all
    intercept_all-Keeps [] = pure-Keeps []
    intercept_all-Keeps (m ∷ ms) =
        >>=-Keeps (intercept_downstream-Keeps m)
          (λ x. >>=-Keeps (intercept_all-Keeps ms) (λ xs. pure-Keeps (x ∷ xs)))

    observed-Keeps :
        (transition : Option (RuntimeState × Event)) (operation : Option ℕ)
        → Keeps (observed environment transition operation)
    observed-Keeps none operation = pure-Keeps tt
    observed-Keeps (some transition) operation = record {
      safe = λ hold. record {
        run = λ c (s, h). (
          moved c (environment.observe_transition c.environment transition operation) c.pipeline
              c.pending_local s s.valid,
          h,
        );
      };
    }

    emitting-Keeps :
        (m : BackendMessage) (transition : Option (RuntimeState × Event)) (operation : Option ℕ)
        → Keeps (do
          x ← advance_backend m
          observed environment transition operation
          send environment x
          pure x)
    emitting-Keeps m transition operation = >>=-Keeps (advance_backend-Keeps m) (λ x.
        >>=-Keeps (observed-Keeps transition operation)
          (λ d. >>=-Keeps (send-Keeps x) (λ d. pure-Keeps x)))

    pub emit_backend-Keeps : (m : BackendMessage) → Keeps (emit_backend environment m)
    unfolding emit_backend
    emit_backend-Keeps m = record {
      safe = λ hold. record {
        run = λ c p.
            ((emitting-Keeps m (backend_transition_id c.pipeline m)
                  (backend_operation_id c.pipeline m)).safe
                hold).run
              c p;
      };
    }

    pub emit_expansion-Keeps : (ms : List BackendMessage) → Keeps (emit_expansion environment ms)
    unfolding emit_expansion
    emit_expansion-Keeps [] = pure-Keeps []
    emit_expansion-Keeps (m ∷ ms) = >>=-Keeps (intercept_downstream-Keeps m) (λ x.
        >>=-Keeps (emit_backend-Keeps x)
          (λ y. >>=-Keeps (emit_expansion-Keeps ms) (λ ys. pure-Keeps (y ∷ ys))))
