-- ===== src/Pipeline/Prepare.antt =====
-- src/pipeline.rs, `prepare_response`: whether a response may be emitted now.
use pg_proto.Base.{
  ℕ, Bool, true, false, ◌&&◌, not, List, [], ◌∷◌, Option, none, some, ◌==◌, if◌then◌else◌, any,
}
use pg_proto.Codec.Backend.{BackendMessage}
use pg_proto.Demux.{is_asynchronous}
use pg_proto.Pipeline.Types.{Origin, Operation, Pipeline, PreparedResponse}
use pg_proto.Pipeline.Classify.{response_fits}

abbrev pub is_local : Origin → Bool
is_local Origin.local = true
is_local Origin.forwarded = false

-- The end of `prepare_response`, on a head that may answer.
unfoldable pub prepare_at_head : Operation → List Operation → BackendMessage → PreparedResponse
prepare_at_head head later message =
    if (if head.discarded then true else not (response_fits head message))
    then if any (λ o. response_fits o message) later
      then PreparedResponse.deferred
      else PreparedResponse.illegal
    else PreparedResponse.emit head head.response_state

-- `local_id` names the operation that the application answers itself.
unfoldable pub prepare_on :
    Option ℕ → Operation → List Operation → BackendMessage → PreparedResponse
unfolding prepare_at_head
prepare_on (some id) head later message =
    if not (head.id == id)
    then PreparedResponse.deferred
    else if not (is_local head.origin)
    then PreparedResponse.illegal
    else prepare_at_head head later message
prepare_on none head later message =
    if is_local head.origin
    then if any (λ o. not (is_local o.origin) && response_fits o message) later
      then PreparedResponse.deferred
      else PreparedResponse.illegal
    else prepare_at_head head later message

unfoldable pub prepare_with : Bool → Option ℕ → List Operation → BackendMessage → PreparedResponse
unfolding prepare_on
prepare_with true local_id os message = PreparedResponse.asynchronous
prepare_with false local_id [] message = PreparedResponse.illegal
prepare_with false local_id (head ∷ later) message = prepare_on local_id head later message

unfoldable pub prepare_response : Pipeline → Option ℕ → BackendMessage → PreparedResponse
unfolding prepare_with
prepare_response p local_id message =
    prepare_with (is_asynchronous message) local_id p.operations message
