-- ===== src/Grammar/Paths.antt =====
-- src/grammar.rs: which phases a run of the grammar leads to.
pub mod Steps
mod Messages
mod Out
mod Back
use pg_proto.Base.{◌≡◌, ◌≢◌, ◌⊎◌, inl, inr, ◌↔◌, refl, sym}
use mathlib.Core.Path.{subst}
use pg_proto.Grammar.States.{RuntimeState}
use pg_proto.Grammar.Internal.{project_internal}
use pg_proto.Grammar.External.{project_external}
use pg_proto.Grammar.Paths.Steps.{Move, Leads, here, next, by_backend, by_frontend, ◌then◌}
use pg_proto.Grammar.Paths.Out.{from_ready}
use pg_proto.Grammar.Paths.Back.{to_ready}

stays_terminated : {t : RuntimeState} → ¬ Move RuntimeState.terminated t
unfolding project_internal project_external
stays_terminated (by_backend m h k) = cc h
stays_terminated (by_frontend m h k) = cc h

only_terminated :
    (s : RuntimeState) {t : RuntimeState}
    → Leads s t
    → s ≡ RuntimeState.terminated
    → t ≡ RuntimeState.terminated
only_terminated s here e = e
only_terminated s {t} (next p m) e =
    absurd (stays_terminated (subst (λ u. Move u t) (only_terminated s p e) m))

terminated_or_not :
    (s : RuntimeState) → (s ≡ RuntimeState.terminated) ⊎ (s ≢ RuntimeState.terminated)
terminated_or_not RuntimeState.terminated = inl refl
terminated_or_not _ = inr (λ e. cc e)

-- A run of legal messages leads from a phase to another exactly when the first is not Terminated or
-- both are: every phase can be reached from every phase in which the connection is not over, and
-- nothing follows Terminated.
pub Leads_iff :
    (s t : RuntimeState) → Leads s t ↔ (s ≡ RuntimeState.terminated → t ≡ RuntimeState.terminated)
Leads_iff s t = (
  only_terminated s,
  (λ over. elim (terminated_or_not s) [
    | inl e ↦ subst (λ u. Leads s u) (sym (over e)) (subst (λ u. Leads s u) e here)
    | inr open_still ↦ to_ready s open_still then from_ready t
  ]),
)
