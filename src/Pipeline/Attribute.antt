-- ===== src/Pipeline/Attribute.antt =====
-- src/pipeline.rs, the operation that a backend message answers, and spans of messages.
use pg_proto.Base.{ℕ, ◌&&◌, not, List, [], ◌∷◌, Option, none, some, if◌then◌else◌}
use pg_proto.Codec.Backend.{BackendMessage}
use pg_proto.Demux.{is_asynchronous}
use pg_proto.Grammar.{RuntimeState, Event, project_internal, transition}
use pg_proto.Pipeline.Types.{Operation, Pipeline, PreparedResponse}
use pg_proto.Pipeline.Classify.{response_fits}
use pg_proto.Pipeline.Backend.{accept_backend}
use pg_proto.Pipeline.Prepare.{is_local, prepare_response}

-- `iter().find(..)`: the forwarded, live operation that the message answers.
unfoldable pub find_answered : List Operation → BackendMessage → Option ℕ
find_answered [] message = none
find_answered (o ∷ os) message =
    let rest = find_answered os message in
    if not (is_local o.origin) && not o.discarded && response_fits o message
    then some o.id
    else rest

unfoldable pub backend_operation_id : Pipeline → BackendMessage → Option ℕ
unfolding find_answered
backend_operation_id p message =
    if is_asynchronous message then none else find_answered p.operations message

-- Each message of a span is attributed on the ledger that those before it have left.
unfoldable pub backend_operation_ids : Pipeline → List BackendMessage → List (Option ℕ)
backend_operation_ids p [] = []
backend_operation_ids p (message ∷ messages) =
    backend_operation_id p message ∷ backend_operation_ids (accept_backend p message).0 messages

unfoldable pub backend_transition_id : Pipeline → BackendMessage → Option (RuntimeState × Event)
backend_transition_id p message = elim (prepare_response p none message) [
  | PreparedResponse.emit head s ↦ elim (project_internal s message) [
    | none ↦ none
    | some event ↦ elim (transition s event) [ none ↦ none | some target ↦ some (s, event) ]
  ]
  | _ ↦ none
]
