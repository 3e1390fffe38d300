-- ===== src/Grammar/Laws.antt =====
-- The projections and the transition table fit together.
use pg_proto.Base.{is_some, true, some, ◌≡◌, ◌⊎◌, arith}
use pg_proto.Codec.Frontend.{FrontendMessage}
use pg_proto.Codec.Backend.{BackendMessage}
use pg_proto.Grammar.States.{RuntimeState, Event}
use pg_proto.Grammar.Internal.{project_internal}
use pg_proto.Grammar.External.{project_external}
use pg_proto.Grammar.Transitions.{transition}

-- The transition table has a row for every event that a backend message is projected to.
pub transition-project_internal :
    (s : RuntimeState) (m : BackendMessage) {e : Event}
    → project_internal s m ≡ some e
    → is_some (transition s e) ≡ true
unfolding project_internal transition
transition-project_internal RuntimeState.ready m h = ground arith
transition-project_internal _ m h = ground arith

-- A phase in which some backend message and some frontend message are both legal is COPY BOTH with
-- both halves open.
pub one_side_speaks :
    (s : RuntimeState) (m : BackendMessage) (n : FrontendMessage)
    → is_some (project_internal s m) ≡ true
    → is_some (project_external s n) ≡ true
    → (s ≡ RuntimeState.simple_copy_both) ⊎ (s ≡ RuntimeState.extended_copy_both)
unfolding project_internal project_external
one_side_speaks RuntimeState.ready m n h k = ground arith
one_side_speaks _ m n h k = ground arith
