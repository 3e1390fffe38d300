-- ===== src/Intermediary/Forwarding.antt =====
-- src/intermediary_component.rs: the responses of PostgreSQL on their way to the client.
use pg_proto.Base.{ℕ, Bool, true, false, ◌||◌, leb, Option, none, some, List, [], ◌∷◌, length}
use pg_proto.Codec.Backend.{BackendMessage}
use pg_proto.Grammar.{RuntimeState, Event}
use pg_proto.Pipeline.{
  Pipeline, accept_backend, backend_operation_id, backend_transition_id, BackendAction,
  BackendOutcome, done, rejected,
}
use pg_proto.BackendHold.{BackendHold, pending_message, take_pending, hold_pending}
use pg_proto.Intermediary.{
  BackendHoldLimits, ForwardError, Environment, Connection, Ending, value, failed, panics, Call,
  ◌>>=◌, ◌>>◌, pure,
}

-- The responses before which a hold is released.
unfoldable pub is_backend_batch_barrier : BackendMessage → Bool
is_backend_batch_barrier (BackendMessage.command_complete tag) = true
is_backend_batch_barrier BackendMessage.portal_suspended = true
is_backend_batch_barrier BackendMessage.empty_query_response = true
is_backend_batch_barrier (BackendMessage.error_response r) = true
is_backend_batch_barrier (BackendMessage.ready_for_query s) = true
is_backend_batch_barrier (BackendMessage.copy_in_response r) = true
is_backend_batch_barrier (BackendMessage.copy_out_response r) = true
is_backend_batch_barrier (BackendMessage.copy_both_response r) = true
is_backend_batch_barrier BackendMessage.copy_done = true
is_backend_batch_barrier (BackendMessage.notice_response r) = true
is_backend_batch_barrier (BackendMessage.notification_response p c t) = true
is_backend_batch_barrier (BackendMessage.parameter_status n v) = true
is_backend_batch_barrier (BackendMessage.backend_key_data p k) = true
is_backend_batch_barrier _ = false

abbrev pub is_at : BackendHoldLimits → BackendHold → Bool
is_at limits hold =
    leb limits.max_messages (length hold.held) || leb limits.max_bytes hold.held_bytes

module _ {E : Type 0} where
  -- A panic of the hold is a panic of the call.
  abbrev pub with_hold : Connection E → Option BackendHold → Connection E × Ending (Unit {0})
  with_hold c none = (c, panics)
  with_hold c (some hold) = (record c { backend_hold = hold }, value tt)

  unfoldable pub take_source : Call E (Unit {0})
  take_source c = (record c { backend_hold = take_pending c.backend_hold }, value tt)

  unfoldable pub hold_source : Call E (Unit {0})
  hold_source c = with_hold c (hold_pending c.backend_hold)

  -- The `expect` of a pending response.
  abbrev pub expected : Connection E → Option BackendMessage → Connection E × Ending BackendMessage
  expected c none = (c, panics)
  expected c (some source) = (c, value source)

  unfoldable pub pending_source : Call E BackendMessage
  pending_source c = expected c (pending_message c.backend_hold)

  unfoldable pub backend_hold_is_full : Connection E → Bool
  backend_hold_is_full c = elim c.backend_hold_limits [
    | none ↦ false
    | some limits ↦ is_at limits c.backend_hold
  ]

  abbrev pub after_accept :
      Connection E → Pipeline × BackendOutcome → Connection E × Ending BackendMessage
  after_accept c (p, done (BackendAction.emit m)) = (record c { pipeline = p }, value m)
  after_accept c (p, done (BackendAction.deferred m)) =
      (record c { pipeline = p }, failed (ForwardError.deferred m))
  after_accept c (p, rejected e) = (record c { pipeline = p }, failed (ForwardError.backend e))
  after_accept c (p, _) = (record c { pipeline = p }, panics)

  unfoldable pub advance_backend : BackendMessage → Call E BackendMessage
  advance_backend message c = after_accept c (accept_backend c.pipeline message)

  module _ (environment : Environment E) where
    abbrev pub sent : Connection E → E × Bool → Connection E × Ending (Unit {0})
    sent c (e, true) = (record c { environment = e }, value tt)
    sent c (e, false) = (record c { environment = e }, failed ForwardError.transport)

    unfoldable pub send : BackendMessage → Call E (Unit {0})
    send message c = sent c (environment.send_wire_raw c.environment message)

    unfoldable pub send_all : List BackendMessage → Call E (Unit {0})
    unfolding send
    send_all [] = pure tt
    send_all (m ∷ ms) = send m >> send_all ms

    unfoldable pub intercept_downstream : BackendMessage → Call E BackendMessage
    intercept_downstream message c =
        let (e, m) = environment.intercept_downstream c.environment message in
        (record c { environment = e }, value m)

    unfoldable pub intercept_all : List BackendMessage → Call E (List BackendMessage)
    unfolding intercept_downstream
    intercept_all [] = pure []
    intercept_all (m ∷ ms) = do m ← intercept_downstream m; ms ← intercept_all ms; pure (m ∷ ms)

    abbrev pub observed : Option (RuntimeState × Event) → Option ℕ → Call E (Unit {0})
    observed none operation c = (c, value tt)
    observed (some transition) operation c = (
      record c { environment = environment.observe_transition c.environment transition operation },
      value tt,
    )

    unfoldable pub emit_backend : BackendMessage → Call E BackendMessage
    unfolding advance_backend send
    emit_backend message c =
        let operation = backend_operation_id c.pipeline message in
        let transition = backend_transition_id c.pipeline message in
        (do
          message ← advance_backend message
          observed transition operation
          send message
          pure message)
          c

    -- The loop of `Expand`.
    unfoldable pub emit_expansion : List BackendMessage → Call E (List BackendMessage)
    unfolding intercept_downstream emit_backend
    emit_expansion [] = pure []
    emit_expansion (m ∷ ms) = do
      m ← intercept_downstream m
      m ← emit_backend m
      ms ← emit_expansion ms
      pure (m ∷ ms)
