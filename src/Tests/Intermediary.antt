-- ===== src/Tests/Intermediary.antt =====
-- A concrete connection of an intermediary, and a concrete batch on a ledger.
use pg_proto.Base.{◌≤◌, ◌↔◌, List, [], ◌∷◌, ◌≡◌, refl, Option, some, none, true, length, arith}
use pg_proto.Tests.{big_endian}
use pg_proto.Codec.Backend.{BackendMessage}
use pg_proto.Pipeline.{Pipeline, new, done}
use pg_proto.Pipeline.Invariant.{IsValid}
use pg_proto.Pipeline.Runs.{Run, Run-IsValid}
use pg_proto.Pipeline.Replacements.{span, prepare_backend_replacements}
use pg_proto.Pipeline.Replacements.Span.{
  Emits, AllReconstructable, prepare_backend_replacements_iff,
}
use pg_proto.Intermediary.{
  BackendMiddlewareOutput, BackendBatchOutput, BackendHoldLimits, limits_of, Environment,
  Connection,
}
use pg_proto.Intermediary.Invariant.{accumulate}
use pg_proto.Intermediary.Runs.{
  BackendCall, forward_call, flush_call, teardown_call, established, after, NeverPanics,
  calls-IsSound,
}

abbrev status : BackendMessage
status = BackendMessage.parameter_status (b'T' ∷ []) (b'Z' ∷ [])

abbrev other_status : BackendMessage
other_status = BackendMessage.parameter_status (b'T' ∷ []) (b'Y' ∷ [])

abbrev next_message : List BackendMessage → List BackendMessage × Option BackendMessage
next_message [] = ([], none)
next_message (m ∷ ms) = (ms, some m)

-- A script of responses, each of which the application holds until it is asked to release them.
abbrev holding : Environment (List BackendMessage)
holding = record {
  intercept_upstream = λ e m. (e, m);
  intercept_downstream = λ e m. (e, m);
  backend_operation = λ e operation m. (e, some BackendMiddlewareOutput.hold);
  flush_backend_operations =
      λ e held bytes operations reason. (e, some (BackendBatchOutput.replace_one_to_one held));
  observe_transition = λ e transition operation. e;
  send_wire_raw = λ e m. (e, true);
  receive_wire_raw = next_message;
}

abbrev script : List BackendMessage
script = BackendMessage.portal_suspended ∷ status ∷ other_status ∷ []

abbrev limits : BackendHoldLimits
limits = record { max_messages = 2; max_bytes = 100 }

abbrev calls : List BackendCall
calls = forward_call ∷ forward_call ∷ forward_call ∷ flush_call ∷ teardown_call ∷ []

limits_set : limits_of 2 100 ≡ some limits
unfolding limits_of
limits_set = refl

new-IsValid : IsValid (new 4)
new-IsValid = Run-IsValid Run.start (omega arith)

abbrev ended : Connection (List BackendMessage)
ended = after holding (established script (new 4) [] (some limits)) calls

calls-IsSound_example :
    NeverPanics holding (established script (new 4) [] (some limits)) calls
    × (length ended.backend_hold.held ≤ 2)
    × (ended.backend_hold.held_bytes ≡ accumulate 0 ended.backend_hold.held)
calls-IsSound_example =
    calls-IsSound holding script (new 4) [] 2 100 limits calls new-IsValid limits_set

prepare_backend_replacements_example :
    (prepare_backend_replacements (new 4) (status ∷ []) (other_status ∷ []) ≡ done (new 4)) ↔ (
      (length (status ∷ []) ≡ length (other_status ∷ []))
      × AllReconstructable (other_status ∷ [])
      × Emits (new 4) (other_status ∷ []) (new 4)
      × ((s : Pipeline) × Emits (new 4) (status ∷ []) s × (span s ≡ span (new 4))))
prepare_backend_replacements_example =
    prepare_backend_replacements_iff (new 4) (status ∷ []) (other_status ∷ []) (new 4)
