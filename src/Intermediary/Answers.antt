-- ===== src/Intermediary/Answers.antt =====
-- src/intermediary_component.rs: the questions to the application and its local answers leave the hold
-- alone.
use pg_proto.Base.{ℕ, ◌≢◌, refl, Option, none, some, Result, ok, err, List, [], ◌∷◌}
use pg_proto.Wire.{Wire}
use pg_proto.Codec.Frame.{Frame}
use pg_proto.Codec.Backend.{BackendMessage, to_frame}
use pg_proto.Pipeline.{
  Pipeline, try_emit_local, BackendAction, BackendOutcome, done, rejected, panicked,
  backend_operation_id, backend_operation_ids,
}
use pg_proto.Pipeline.Invariant.{IsValid}
use pg_proto.Pipeline.Invariant.Responses.{try_emit_local-IsValid}
use pg_proto.BackendHold.{BackendHold}
use pg_proto.Intermediary.{
  BackendBatchOutput, BackendFlushReason, BackendMiddlewareOutput, PendingLocalResponses,
  Environment, Connection, Call,
}
use pg_proto.Intermediary.Calls.{
  batch_asked, ask_flush, if_framed, all_framed, received, receive, after_local, flush_answers,
  flush_operations, flush_local_responses, asked, ask_backend_operation,
}
use pg_proto.Intermediary.Invariant.{Limits, Holds, Ends, Keeps, >>=-Keeps, pure-Keeps}
use pg_proto.Intermediary.Steps.{moved, send-Keeps}

module _ ⦃w : Wire⦄ ⦃fixed : Limits⦄ {E : Type 0} where
  module _ (environment : Environment E) where
    after_local-Ends :
        (c : Connection E) (operation : ℕ) (ms : List BackendMessage)
        (later : List PendingLocalResponses) (rest : Call E (Unit {0})) (hold : BackendHold)
        (r : Pipeline × BackendOutcome)
        → Keeps rest
        → Holds hold c
        → IsValid r.0
        → r.1 ≢ panicked
        → Ends (λ done. Holds hold) (after_local environment c operation ms later rest r)
    after_local-Ends c operation ms later rest hold (p, done (BackendAction.emit m)) keeps (s, h) v
          ne =
        ((>>=-Keeps (send-Keeps environment m) (λ d. keeps)).safe hold).run
          (record c { pipeline = p; pending_local = (operation, ms) ∷ later })
          (moved c c.environment p ((operation, ms) ∷ later) s v, h)
    after_local-Ends c operation ms later rest hold (p, done (BackendAction.deferred m)) keeps
          (s, h) v ne =
        (moved c c.environment p ((operation, m ∷ ms) ∷ later) s v, h)
    after_local-Ends c operation ms later rest hold (p, rejected e) keeps (s, h) v ne =
        moved c c.environment p ((operation, ms) ∷ later) s v
    after_local-Ends c operation ms later rest hold (p, panicked) keeps (s, h) v ne =
        absurd (ne refl)

    flush_answers-Keeps :
        (operation : ℕ) (ms : List BackendMessage) (later : List PendingLocalResponses)
        (next : Call E (Unit {0}))
        → Keeps next
        → Keeps (flush_answers environment operation ms later next)
    unfolding flush_answers
    flush_answers-Keeps operation [] later next keeps = keeps
    flush_answers-Keeps operation (m ∷ ms) later next keeps =
        let rest = flush_answers-Keeps operation ms later next keeps in
        record {
          safe = λ hold. record {
            run = λ c (s, h).
                let (v, ne) = try_emit_local-IsValid c.pipeline operation m s.valid in
                after_local-Ends c operation ms later
                  (flush_answers environment operation ms later next) hold
                  (try_emit_local c.pipeline operation m) rest (s, h) v ne;
          };
        }

    flush_operations-Keeps :
        (local : List PendingLocalResponses) → Keeps (flush_operations environment local)
    unfolding flush_operations
    flush_operations-Keeps [] = record {
      safe =
          λ hold. record { run = λ c (s, h). (moved c c.environment c.pipeline [] s s.valid, h) };
    }
    flush_operations-Keeps ((operation, ms) ∷ later) =
        flush_answers-Keeps operation ms later (flush_operations environment later)
          (flush_operations-Keeps later)

    pub flush_local_responses-Keeps : Keeps (flush_local_responses environment)
    unfolding flush_local_responses
    flush_local_responses-Keeps = record {
      safe = λ hold. record {
        run = λ c p. ((flush_operations-Keeps c.pending_local).safe hold).run c p;
      };
    }

    asked-Ends :
        (c : Connection E) (hold : BackendHold) (r : E × Option BackendMiddlewareOutput)
        → Holds hold c
        → Ends (λ decision. Holds hold) (asked environment c r)
    asked-Ends c hold (e, some decision) (s, h) =
        (moved c e c.pipeline c.pending_local s s.valid, h)
    asked-Ends c hold (e, none) (s, h) = moved c e c.pipeline c.pending_local s s.valid

    pub ask_backend_operation-Keeps :
        (source : BackendMessage) → Keeps (ask_backend_operation environment source)
    unfolding ask_backend_operation
    ask_backend_operation-Keeps source = record {
      safe = λ hold. record {
        run = λ c p.
            asked-Ends c hold
              (environment.backend_operation c.environment (backend_operation_id c.pipeline source)
                source)
              p;
      };
    }

    batch_asked-Ends :
        (c : Connection E) (hold : BackendHold) (r : E × Option BackendBatchOutput)
        → Holds hold c
        → Ends (λ decision. Holds hold) (batch_asked environment c r)
    batch_asked-Ends c hold (e, some decision) (s, h) =
        (moved c e c.pipeline c.pending_local s s.valid, h)
    batch_asked-Ends c hold (e, none) (s, h) = moved c e c.pipeline c.pending_local s s.valid

    pub ask_flush-Keeps : (reason : BackendFlushReason) → Keeps (ask_flush environment reason)
    unfolding ask_flush
    ask_flush-Keeps reason = record {
      safe = λ hold. record {
        run = λ c p.
            batch_asked-Ends c hold
              (environment.flush_backend_operations c.environment c.backend_hold.held
                c.backend_hold.held_bytes (backend_operation_ids c.pipeline c.backend_hold.held)
                reason)
              p;
      };
    }

    if_framed-Ends :
        (c : Connection E) (hold : BackendHold) (r : Result Frame) (next : Call E (Unit {0}))
        → Holds hold c
        → Keeps next
        → Ends (λ done. Holds hold) (if_framed environment r next c)
    if_framed-Ends c hold (ok frame) next p keeps = (keeps.safe hold).run c p
    if_framed-Ends c hold (err e) next (s, h) keeps = s

    pub all_framed-Keeps : (ms : List BackendMessage) → Keeps (all_framed environment ms)
    all_framed-Keeps [] = pure-Keeps tt
    all_framed-Keeps (m ∷ ms) =
        let later = all_framed-Keeps ms in
        record {
          safe = λ hold. record {
            run = λ c p. if_framed-Ends c hold (to_frame m) (all_framed environment ms) p later;
          };
        }

    received-Ends :
        (c : Connection E) (hold : BackendHold) (r : E × Option BackendMessage)
        → Holds hold c
        → Ends (λ message. Holds hold) (received environment c r)
    received-Ends c hold (e, some m) (s, h) = (moved c e c.pipeline c.pending_local s s.valid, h)
    received-Ends c hold (e, none) (s, h) = moved c e c.pipeline c.pending_local s s.valid

    pub receive-Keeps : Keeps (receive environment)
    unfolding receive
    receive-Keeps = record {
      safe = λ hold. record {
        run = λ c p. received-Ends c hold (environment.receive_wire_raw c.environment) p;
      };
    }
