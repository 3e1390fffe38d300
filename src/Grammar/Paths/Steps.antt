-- ===== src/Grammar/Paths/Steps.antt =====
-- src/grammar.rs: runs of the rows of the grammar.
use pg_proto.Base.{some, ◌≡◌}
use pg_proto.Codec.Frontend.{FrontendMessage}
use pg_proto.Codec.Backend.{BackendMessage}
use pg_proto.Grammar.States.{RuntimeState, Event}
use pg_proto.Grammar.Internal.{project_internal}
use pg_proto.Grammar.External.{project_external}
use pg_proto.Grammar.Transitions.{transition}

-- A row of the grammar that a message of one side takes.
pub data Move (s : RuntimeState) (t : RuntimeState) : Type 0 where
  by_backend :
      (m : BackendMessage) {e : Event}
      → project_internal s m ≡ some e
      → transition s e ≡ some t
      → Move s t
  by_frontend :
      (m : FrontendMessage) {e : Event}
      → project_external s m ≡ some e
      → transition s e ≡ some t
      → Move s t

pub data Leads (s : RuntimeState) : RuntimeState → Type 0 where
  here : Leads s s
  next : {t u : RuntimeState} → Leads s t → Move t u → Leads s u

pub ◌then◌ : {s t u : RuntimeState} → Leads s t → Leads t u → Leads s u

infixl 50 ◌then◌
p then here = p
p then (next q m) = next (p then q) m

pub hears :
    (s : RuntimeState) (m : FrontendMessage) {e : Event} {t : RuntimeState}
    → project_external s m ≡ some e
    → transition s e ≡ some t
    → Leads s t
hears s m h k = next here (by_frontend m h k)

pub says :
    (s : RuntimeState) (m : BackendMessage) {e : Event} {t : RuntimeState}
    → project_internal s m ≡ some e
    → transition s e ≡ some t
    → Leads s t
says s m h k = next here (by_backend m h k)
