-- ===== src/Intermediary/Calls.antt =====
-- src/intermediary_component.rs: the calls of the backend direction.
use pg_proto.Base.{
  ℕ, Bool, false, ◌&&◌, not, if◌then◌else◌, Option, none, some, is_some, List, [], ◌∷◌, is_empty,
  Result, ok, err,
}
use pg_proto.Wire.{Wire}
use pg_proto.Codec.Frame.{Frame}
use pg_proto.Codec.Backend.{BackendMessage, to_frame}
use pg_proto.Pipeline.{
  Pipeline, try_emit_local, backend_operation_id, backend_operation_ids, BackendAction,
  BackendOutcome, BackendSequenceError, Outcome, done, rejected,
}
use pg_proto.Pipeline.Replacements.{prepare_backend_replacements}
use pg_proto.BackendHold.{set_pending, pending_message, clear}
use pg_proto.Intermediary.{
  BackendMiddlewareOutput, BackendBatchOutput, BackendFlushReason, PendingLocalResponses,
  BackendForwarding, BackendBatchForwarding, ForwardError, Environment, Connection, Ending, value,
  failed, panics, Call, ◌>>=◌, ◌>>◌, pure, fail,
}
use pg_proto.Intermediary.Forwarding.{
  is_backend_batch_barrier, with_hold, take_source, hold_source, pending_source,
  backend_hold_is_full, advance_backend, send, send_all, intercept_downstream, intercept_all,
  emit_backend, emit_expansion,
}

module _ {E : Type 0} (environment : Environment E) where
  -- `try_emit_local` on the first answer of an operation; `ms` are its other answers.
  abbrev pub after_local :
      Connection E
      → ℕ
      → List BackendMessage
      → List PendingLocalResponses
      → Call E (Unit {0})
      → Pipeline × BackendOutcome
      → Connection E × Ending (Unit {0})
  after_local c operation ms later rest (p, done (BackendAction.emit m)) =
      (send environment m >> rest)
        (record c { pipeline = p; pending_local = (operation, ms) ∷ later })
  after_local c operation ms later rest (p, done (BackendAction.deferred m)) =
      (record c { pipeline = p; pending_local = (operation, m ∷ ms) ∷ later }, value tt)
  after_local c operation ms later rest (p, rejected e) = (
    record c { pipeline = p; pending_local = (operation, ms) ∷ later },
    failed (ForwardError.backend e),
  )
  after_local c operation ms later rest (p, _) =
      (record c { pipeline = p; pending_local = (operation, ms) ∷ later }, panics)

  -- The loop on the answers of one operation, and what comes after them.
  unfoldable pub flush_answers :
      ℕ → List BackendMessage → List PendingLocalResponses → Call E (Unit {0}) → Call E (Unit {0})
  unfolding send
  flush_answers operation [] later next c = next c
  flush_answers operation (m ∷ ms) later next c =
      after_local c operation ms later (flush_answers operation ms later next)
        (try_emit_local c.pipeline operation m)

  unfoldable pub flush_operations : List PendingLocalResponses → Call E (Unit {0})
  unfolding flush_answers
  flush_operations [] c = (record c { pending_local = [] }, value tt)
  flush_operations ((operation, messages) ∷ later) c =
      flush_answers operation messages later (flush_operations later) c

  unfoldable pub flush_local_responses : Call E (Unit {0})
  unfolding flush_operations
  flush_local_responses c = flush_operations c.pending_local c

  abbrev pub asked :
      Connection E
      → E × Option BackendMiddlewareOutput
      → Connection E × Ending BackendMiddlewareOutput
  asked c (e, none) = (record c { environment = e }, failed ForwardError.middleware)
  asked c (e, some decision) = (record c { environment = e }, value decision)

  unfoldable pub ask_backend_operation : BackendMessage → Call E BackendMiddlewareOutput
  ask_backend_operation source c =
      asked c (
        environment.backend_operation c.environment (backend_operation_id c.pipeline source) source)

  unfoldable pub hold_decided : BackendMessage → Call E BackendForwarding
  unfolding hold_source
  hold_decided source c =
      if not (is_some c.backend_hold_limits)
      then (c, failed (ForwardError.backend_holding_disabled source))
      else (do hold_source; pure BackendForwarding.held) c

  -- The decision of the middleware on the pending response.
  unfoldable pub apply_decision :
      BackendMessage → BackendMiddlewareOutput → Call E BackendForwarding
  unfolding take_source hold_decided intercept_downstream emit_backend advance_backend
      emit_expansion
  apply_decision source (BackendMiddlewareOutput.forward message) = do
    take_source
    message ← intercept_downstream environment message
    message ← emit_backend environment message
    pure (BackendForwarding.forwarded message)
  apply_decision source (BackendMiddlewareOutput.suppress message) = do
    take_source
    message ← advance_backend message
    pure (BackendForwarding.suppressed message)
  apply_decision source (BackendMiddlewareOutput.expand []) =
      fail (ForwardError.empty_expansion source)
  apply_decision source (BackendMiddlewareOutput.expand (m ∷ ms)) = do
    take_source
    emitted ← emit_expansion environment (m ∷ ms)
    pure (BackendForwarding.expanded source emitted)
  apply_decision source BackendMiddlewareOutput.hold = hold_decided source

  unfoldable pub process_pending_backend : Call E BackendForwarding
  unfolding pending_source ask_backend_operation apply_decision flush_local_responses
  process_pending_backend = do
    source ← pending_source
    decision ← ask_backend_operation source
    outcome ← apply_decision source decision
    flush_local_responses
    pure outcome

  module _ ⦃w : Wire⦄ where
    abbrev pub if_framed : Result Frame → Call E (Unit {0}) → Call E (Unit {0})
    if_framed (ok frame) next c = next c
    if_framed (err e) next c = (c, failed (ForwardError.io e))

    abbrev pub all_framed : List BackendMessage → Call E (Unit {0})
    all_framed [] c = (c, value tt)
    all_framed (m ∷ ms) c = if_framed (to_frame m) (all_framed ms) c

    -- The ledger moves and the hold is emptied together.
    abbrev pub committed :
        List BackendMessage
        → Connection E
        → Outcome BackendSequenceError Pipeline
        → Connection E × Ending (Unit {0})
    committed messages c (done p) =
        (record c { pipeline = p; backend_hold = clear c.backend_hold }, value tt)
    committed messages c (rejected e) = (c, failed (ForwardError.backend_batch e messages))
    committed messages c _ = (c, panics)

    unfoldable pub commit_batch : List BackendMessage → Call E (Unit {0})
    unfolding prepare_backend_replacements clear
    commit_batch messages c =
        committed messages c (prepare_backend_replacements c.pipeline c.backend_hold.held messages)

    unfoldable pub release_batch : BackendBatchOutput → Call E BackendBatchForwarding
    unfolding intercept_all commit_batch send_all flush_local_responses
    release_batch BackendBatchOutput.keep_holding = pure BackendBatchForwarding.kept
    release_batch (BackendBatchOutput.replace_one_to_one messages) = do
      messages ← intercept_all environment messages
      all_framed messages
      commit_batch messages
      send_all environment messages
      flush_local_responses
      pure (BackendBatchForwarding.released messages)

    abbrev pub batch_asked :
        Connection E → E × Option BackendBatchOutput → Connection E × Ending BackendBatchOutput
    batch_asked c (e, none) = (record c { environment = e }, failed ForwardError.middleware)
    batch_asked c (e, some decision) = (record c { environment = e }, value decision)

    unfoldable pub ask_flush : BackendFlushReason → Call E BackendBatchOutput
    ask_flush reason c =
        let hold = c.backend_hold in
        batch_asked c (
          environment.flush_backend_operations c.environment hold.held hold.held_bytes
            (backend_operation_ids c.pipeline hold.held) reason)

    unfoldable pub flush_backend_hold_for : BackendFlushReason → Call E BackendBatchForwarding
    unfolding ask_flush release_batch
    flush_backend_hold_for reason c =
        if is_empty c.backend_hold.held
        then (c, value BackendBatchForwarding.empty)
        else (do decision ← ask_flush reason; release_batch decision) c

    unfoldable pub flush_backend_hold : Call E BackendBatchForwarding
    unfolding flush_backend_hold_for
    flush_backend_hold = flush_backend_hold_for BackendFlushReason.explicit

    -- A kept hold is the error `e`.
    abbrev pub unless_kept : ForwardError → BackendBatchForwarding → Call E BackendBatchForwarding
    unless_kept e BackendBatchForwarding.kept = fail e
    unless_kept e outcome = pure outcome

    unfoldable pub prepare_backend_teardown : Call E BackendBatchForwarding
    unfolding flush_backend_hold_for
    prepare_backend_teardown = do
      outcome ← flush_backend_hold_for BackendFlushReason.teardown
      unless_kept ForwardError.backend_hold_refused outcome

    unfoldable pub intercept_upstream : BackendMessage → Call E (Unit {0})
    unfolding set_pending
    intercept_upstream message c =
        let (e, m) = environment.intercept_upstream c.environment message in
        with_hold (record c { environment = e }) (set_pending c.backend_hold m)

    abbrev pub pending_is_barrier : Connection E → Bool
    pending_is_barrier c = elim (pending_message c.backend_hold) [
      | none ↦ false
      | some source ↦ is_backend_batch_barrier source
    ]

    abbrev pub barrier : Call E (Unit {0})
    barrier c =
        if pending_is_barrier c && not (is_empty c.backend_hold.held)
        then (do
          outcome ← flush_backend_hold_for BackendFlushReason.protocol_barrier
          outcome ← unless_kept ForwardError.backend_hold_refused outcome
          pure tt)
            c
        else (c, value tt)

    unfoldable pub process_backend : BackendMessage → Call E BackendForwarding
    unfolding intercept_upstream flush_backend_hold_for process_pending_backend
    process_backend message = do intercept_upstream message; barrier; process_pending_backend

    abbrev pub received :
        Connection E → E × Option BackendMessage → Connection E × Ending BackendMessage
    received c (e, none) = (record c { environment = e }, failed ForwardError.transport)
    received c (e, some message) = (record c { environment = e }, value message)

    unfoldable pub receive : Call E BackendMessage
    receive c = received c (environment.receive_wire_raw c.environment)

    abbrev pub make_room : Call E (Unit {0})
    make_room c =
        if backend_hold_is_full c
        then (do
          outcome ← flush_backend_hold_for BackendFlushReason.capacity
          outcome ← unless_kept ForwardError.backend_hold_capacity outcome
          pure tt)
            c
        else (c, value tt)

    unfoldable pub forward_backend : Call E BackendForwarding
    unfolding process_pending_backend flush_backend_hold_for backend_hold_is_full receive
        process_backend
    forward_backend c =
        if is_some c.backend_hold.pending
        then process_pending_backend c
        else (do make_room; message ← receive; process_backend message) c
