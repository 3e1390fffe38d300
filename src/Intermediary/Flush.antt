-- ===== src/Intermediary/Flush.antt =====
-- src/intermediary_component.rs: releasing a hold does not panic, and empties it only together with
-- the move of the ledger.
use pg_proto.Base.{
  ◌≡◌, ◌≢◌, refl, sym, ap, ◌∙◌, true, Option, none, some, List, [], ◌∷◌, arith, is_empty,
}
use mathlib.Core.Path.{subst}
use pg_proto.Wire.{Wire}
use pg_proto.Codec.Backend.{BackendMessage}
use pg_proto.Pipeline.{
  Pipeline, accept_backend, Outcome, done, rejected, panicked, BackendSequenceError,
}
use pg_proto.Pipeline.Invariant.{IsValid}
use pg_proto.Pipeline.Invariant.Responses.{accept_backend-IsValid}
use pg_proto.Pipeline.Replacements.{prepare_backend_replacements}
use pg_proto.Pipeline.Replacements.Span.{Emits, accepted}
use pg_proto.Pipeline.Replacements.Panics.{prepare_backend_replacements-ne-panicked}
use pg_proto.BackendHold.{BackendHold, clear}
use pg_proto.Intermediary.{
  BackendBatchOutput, BackendFlushReason, BackendHoldLimits, BackendBatchForwarding, Environment,
  Connection,
}
use pg_proto.Intermediary.Calls.{committed, commit_batch, release_batch, flush_backend_hold_for}
use pg_proto.Intermediary.Invariant.{
  Limits, HasRoom, HoldFits, IsSound, Holds, Ends, if-Ends, Safe, >>=-Safe,
}
use pg_proto.Intermediary.Steps.{send_all-Keeps, intercept_all-Keeps}
use pg_proto.Intermediary.Answers.{flush_local_responses-Keeps, ask_flush-Keeps, all_framed-Keeps}

Emits-IsValid :
    (p : Pipeline) (ms : List BackendMessage) {q : Pipeline} → IsValid p → Emits p ms q → IsValid q
Emits-IsValid p [] v e = subst IsValid e v
Emits-IsValid p (m ∷ ms) v (x, e, rest) =
    Emits-IsValid (accept_backend p m).0 ms (accept_backend-IsValid p m v).0 rest

-- An empty hold fits any limits that a hold has fitted.
fits_empty :
    (limits : Option BackendHoldLimits) (held : List BackendMessage)
    → HoldFits limits held
    → HoldFits limits []
fits_empty none held fits = refl
fits_empty (some limits) held (count, size, fits) = (count, size, omega arith)

pub room_empty :
    (limits : Option BackendHoldLimits) (held : List BackendMessage)
    → HoldFits limits held
    → HasRoom limits [] 0
room_empty none held fits = tt
room_empty (some limits) held (count, size, fits) = (count, size)

module _ ⦃w : Wire⦄ ⦃fixed : Limits⦄ {E : Type 0} where
  cleared-sound :
      (c : Connection E) (p : Pipeline)
      → IsSound c
      → IsValid p
      → IsSound (record c { pipeline = p; backend_hold = clear c.backend_hold })
  unfolding clear
  cleared-sound c p s v = record {
    valid = v;
    same = s.same;
    accounted = refl;
    counted = s.counted;
    fits = fits_empty c.backend_hold_limits c.backend_hold.held s.fits;
    room = λ h. room_empty c.backend_hold_limits c.backend_hold.held s.fits;
  }

  module _ (environment : Environment E) where
    committed-Ends :
        (c : Connection E) (hold : BackendHold) (ms : List BackendMessage)
        (r : Outcome BackendSequenceError Pipeline)
        → Holds hold c
        → ((q : Pipeline) → r ≡ done q → IsValid q)
        → r ≢ panicked
        → Ends (λ d. Holds (clear hold)) (committed environment ms c r)
    committed-Ends c hold ms (done q) (s, h) valid ne =
        (cleared-sound c q s (valid q refl), ap clear h)
    committed-Ends c hold ms (rejected e) (s, h) valid ne = s
    committed-Ends c hold ms panicked (s, h) valid ne = absurd (ne refl)

    commit_batch-Safe :
        (hold : BackendHold) (ms : List BackendMessage)
        → Safe (Holds hold) (commit_batch environment ms) (λ d. Holds (clear hold))
    unfolding commit_batch
    commit_batch-Safe hold ms = record {
      run = λ c (s, h).
          let sources = c.backend_hold.held in
          committed-Ends c hold ms (prepare_backend_replacements c.pipeline sources ms) (s, h)
            (λ q e.
              let (long, all, emits, span) = accepted c.pipeline sources ms e in
              Emits-IsValid c.pipeline ms s.valid emits)
            (prepare_backend_replacements-ne-panicked c.pipeline sources ms s.valid);
    }

    -- The hold is kept as it is, or else emptied.
    abbrev pub Released : BackendHold → BackendBatchForwarding → Connection E → Type 0
    Released hold BackendBatchForwarding.kept c = Holds hold c
    Released hold BackendBatchForwarding.empty c = Holds hold c × (hold.held ≡ [])
    Released hold (BackendBatchForwarding.released ms) c = Holds (clear hold) c

    release_batch-Safe :
        (hold : BackendHold) (decision : BackendBatchOutput)
        → Safe (Holds hold) (release_batch environment decision) (Released hold)
    unfolding release_batch
    release_batch-Safe hold BackendBatchOutput.keep_holding = record { run = λ c p. p }
    release_batch-Safe hold (BackendBatchOutput.replace_one_to_one proposed) =
        >>=-Safe ((intercept_all-Keeps environment proposed).safe hold) (λ ms.
          >>=-Safe ((all_framed-Keeps environment ms).safe hold) (λ d.
            >>=-Safe (commit_batch-Safe hold ms) (λ d.
              >>=-Safe ((send_all-Keeps environment ms).safe (clear hold)) (λ d.
                >>=-Safe ((flush_local_responses-Keeps environment).safe (clear hold))
                  (λ d. record { run = λ c p. p })))))

    is_empty_lem : (ms : List BackendMessage) → is_empty ms ≡ true → ms ≡ []
    is_empty_lem [] h = refl
    is_empty_lem (m ∷ ms) h = absurd (cc h)

    pub flush_backend_hold_for-Safe :
        (hold : BackendHold) (reason : BackendFlushReason)
        → Safe (Holds hold) (flush_backend_hold_for environment reason) (Released hold)
    unfolding flush_backend_hold_for
    flush_backend_hold_for-Safe hold reason = record {
      run = λ c (s, h).
          if-Ends (Released hold) (is_empty c.backend_hold.held) _ _
            (λ e. ((s, h), ap (λ x. x.held) (sym h) ∙ is_empty_lem c.backend_hold.held e))
            (λ e.
              (>>=-Safe ((ask_flush-Keeps environment reason).safe hold)
                  (λ decision. release_batch-Safe hold decision)).run
                c (s, h));
    }
