-- ===== src/Pipeline/Invariant/Frontend.antt =====
-- Admitting a frontend message keeps the ledger valid, and does not panic outside COPY BOTH.
use pg_proto.Base.{
  ℕ, suc, ◌-◌, ◌^◌, ◌<◌, true, List, [], ◌∷◌, ◌++◌, ◌≡◌, ◌≢◌, refl, ap, ◌∙◌, All, arith, some,
  Option-cases, is_some, inl, inr, All-append, Bytes, ◌⊎◌,
}
use mathlib.Core.List.{map-append}
use pg_proto.Codec.Frontend.{FrontendMessage}
use pg_proto.Grammar.{project_external, transition}
use pg_proto.Pipeline.Types.{
  Operation, OperationKind, FrontendPhase, Pipeline, RequestState, FrontendHandling, Outcome, done,
  rejected, panicked, saturating_suc,
}
use pg_proto.Pipeline.Classify.{
  classify_frontend, classify_discard, project_frontend, frontend_phase,
}
use pg_proto.Pipeline.Frontend.{
  operation_of, retire_copy_sync, advance_head, external_target, remove_inert_heads,
  commit_classified, commit_frontend, prepare_frontend, accept_frontend, head_kind,
}
use pg_proto.Pipeline.Phases.{answers, answers-initial_response_state}
use pg_proto.Pipeline.Invariant.{ids, HasPhase, head_is_live, copies_in, head_copies_in, IsValid}
use pg_proto.Pipeline.Invariant.Lists.{
  Grows-snoc, remove_inert_heads-Grows, remove_inert_heads-All, remove_inert_heads-live,
  ids-advance_head, advance_head-All, ids-retire_copy_sync, retire_copy_sync-All,
}

pub ids-earlier :
    (p : Pipeline) (m : FrontendMessage) (k : OperationKind) (o : Operation)
    → ids (advance_head m (retire_copy_sync p.request_state k p.operations) ++ o ∷ [])
      ≡ ids p.operations ++ o.id ∷ []
ids-earlier p m k o =
    map-append (λ (o : Operation). o.id)
      (advance_head m (retire_copy_sync p.request_state k p.operations)) (o ∷ [])
    ∙ ap (λ is. is ++ o.id ∷ [])
        (ids-advance_head m (retire_copy_sync p.request_state k p.operations)
          ∙ ids-retire_copy_sync p.request_state k p.operations)

saturating_suc_lem : (n : ℕ) → n < 2 ^ 64 - 1 → saturating_suc n ≡ suc n
saturating_suc_lem n h = ground arith

-- COPY IN is kept by its data alone.
classify_frontend-copy_in :
    (s : RequestState) (m : FrontendMessage) {k : OperationKind} {next : RequestState}
    → classify_frontend s m ≡ some (k, next)
    → next ≡ RequestState.copy_in
    → (s ≡ RequestState.copy_in)
      × (k ≡ OperationKind.copy_data)
      × (d : Bytes) × (m ≡ FrontendMessage.copy_data d)
unfolding classify_frontend classify_discard
classify_frontend-copy_in RequestState.copy_in (FrontendMessage.copy_data d) e h =
    (refl, ground arith, d, refl)
classify_frontend-copy_in RequestState.copy_in _ e h = absurd (ground arith)
classify_frontend-copy_in _ m e h = absurd (ground arith)

-- Data leaves the head of a COPY IN as it is.
copying-data :
    (o : Operation) (os : List Operation) (new : Operation) (d : Bytes)
    → head_is_live (o ∷ os) ≡ true
    → copies_in o.response_state ≡ true
    → head_copies_in
        (remove_inert_heads (advance_head (FrontendMessage.copy_data d) (o ∷ os) ++ new ∷ []))
      ≡ true
unfolding remove_inert_heads advance_head external_target project_external transition
copying-data o os new d live copies = ground arith

copying-data_list :
    (os : List Operation) (new : Operation) (d : Bytes)
    → head_is_live os ≡ true
    → head_copies_in os ≡ true
    → head_copies_in
        (remove_inert_heads (advance_head (FrontendMessage.copy_data d) os ++ new ∷ []))
      ≡ true
copying-data_list [] new d live copies = cc
copying-data_list (o ∷ os) new d live copies = copying-data o os new d live copies

copying-commit :
    (p : Pipeline) (m : FrontendMessage) (k : OperationKind) (next : RequestState) (new : Operation)
    → IsValid p
    → classify_frontend p.request_state m ≡ some (k, next)
    → next ≡ RequestState.copy_in
    → head_copies_in (
        remove_inert_heads
          (advance_head m (retire_copy_sync p.request_state k p.operations) ++ new ∷ []))
      ≡ true
unfolding retire_copy_sync
copying-commit p m k next new v e h =
    let (s, k_is, d, m_is) = classify_frontend-copy_in p.request_state m e h in
    rw (k_is, m_is, s) (copying-data_list p.operations new d v.live (v.copying s))

pub commit_classified-IsValid :
    (p : Pipeline) (m : FrontendMessage) (handling : FrontendHandling) (k : OperationKind)
    (next : RequestState)
    → IsValid p
    → p.next_id < 2 ^ 64 - 1
    → classify_frontend p.request_state m ≡ some (k, next)
    → IsValid (commit_classified p m handling k next).0
unfolding commit_classified
commit_classified-IsValid p m handling k next v room e =
    let new = operation_of p.next_id k next handling in
    let earlier = advance_head m (retire_copy_sync p.request_state k p.operations) in
    record {
      ordered = remove_inert_heads-Grows 0 (earlier ++ new ∷ []) _ (
          rw (ids-earlier p m k new, saturating_suc_lem p.next_id room)
            (Grows-snoc 0 (ids p.operations) p.next_id v.ordered));
      phases = remove_inert_heads-All (earlier ++ new ∷ []) (
          All-append HasPhase earlier (new ∷ [])
            (advance_head-All m _ (retire_copy_sync-All p.request_state k p.operations v.phases))
            (answers-initial_response_state k, tt));
      live = remove_inert_heads-live (earlier ++ new ∷ []);
      copying = λ h. copying-commit p m k next new v e h;
    }

commit_frontend-IsValid :
    (p : Pipeline) (m : FrontendMessage) (handling : FrontendHandling)
    → IsValid p
    → p.next_id < 2 ^ 64 - 1
    → IsValid (commit_frontend p m handling).0
unfolding commit_frontend
commit_frontend-IsValid p m handling v room =
    elim (Option-cases (classify_frontend p.request_state m)) [
      | inl e ↦ rw (e, commit_frontend) v
      | inr ((k, next), e) ↦
          rw (e, commit_frontend) (commit_classified-IsValid p m handling k next v room e)
    ]

pub accept_frontend-IsValid :
    (p : Pipeline) (m : FrontendMessage) (handling : FrontendHandling)
    → IsValid p
    → p.next_id < 2 ^ 64 - 1
    → IsValid (accept_frontend p m handling).0
unfolding accept_frontend
accept_frontend-IsValid p m handling v room = on_outcome (prepare_frontend p m) refl
  where
    on_outcome :
        (r : Outcome _ _) → prepare_frontend p m ≡ r → IsValid (accept_frontend p m handling).0
    on_outcome (rejected e) h = rw (h, accept_frontend) v
    on_outcome panicked h = rw (h, accept_frontend) v
    on_outcome (done phase) h =
        rw (h, accept_frontend) (commit_frontend-IsValid p m handling v room)

-- The head of a ledger in COPY IN is a query or an `Execute`.
copying_kind :
    (o : Operation)
    → answers o.kind o.response_state ≡ true
    → copies_in o.response_state ≡ true
    → (o.kind ≡ OperationKind.query) ⊎ (o.kind ≡ OperationKind.execute)
unfolding answers
copying_kind o h c = ground arith

phase_exists :
    (s : RequestState) (os : List Operation) (m : FrontendMessage)
    → All HasPhase os
    → (s ≡ RequestState.copy_in → head_copies_in os ≡ true)
    → s ≢ RequestState.copy_both
    → is_some (project_frontend s m) ≡ true
    → is_some (frontend_phase s (head_kind os)) ≡ true
unfolding project_frontend classify_frontend frontend_phase
phase_exists RequestState.copy_in [] m all copying ne some_m = absurd (ground (arith, copying refl))
phase_exists RequestState.copy_in (o ∷ os) m all copying ne some_m =
    ground (arith, copying_kind o all.0 (copying refl))
phase_exists RequestState.copy_both os m all copying ne some_m = absurd (ne refl)
phase_exists _ os m all copying ne some_m = ground arith

classified :
    (s : RequestState) (m : FrontendMessage)
    → is_some (project_frontend s m) ≡ true
    → is_some (classify_frontend s m) ≡ true
unfolding project_frontend
classified s m h = ground arith

-- What `prepare_frontend` admits is classified, and it does not panic outside COPY BOTH.
prepare_frontend_cases :
    (p : Pipeline) (m : FrontendMessage)
    → IsValid p
    → p.request_state ≢ RequestState.copy_both
    → (prepare_frontend p m ≢ panicked)
      × ((phase : FrontendPhase)
          → prepare_frontend p m ≡ done phase
          → is_some (classify_frontend p.request_state m) ≡ true)
unfolding prepare_frontend
prepare_frontend_cases p m v ne = (
  ground (arith, phase_exists p.request_state p.operations m v.phases v.copying ne),
  λ phase. ground (arith, classified p.request_state m),
)

pub accept_frontend-ne-panicked :
    (p : Pipeline) (m : FrontendMessage) (handling : FrontendHandling)
    → IsValid p
    → p.request_state ≢ RequestState.copy_both
    → (accept_frontend p m handling).1 ≢ panicked
unfolding accept_frontend commit_frontend
accept_frontend-ne-panicked p m handling v ne =
    let (no_panic, is_classified) = prepare_frontend_cases p m v ne in
    on_outcome (prepare_frontend p m) refl no_panic is_classified
  where
    on_outcome :
        (r : Outcome _ _)
        → prepare_frontend p m ≡ r
        → prepare_frontend p m ≢ panicked
        → ((phase : FrontendPhase)
            → prepare_frontend p m ≡ done phase
            → is_some (classify_frontend p.request_state m) ≡ true)
        → (accept_frontend p m handling).1 ≢ panicked
    on_outcome (rejected e) h no_panic c = ground arith
    on_outcome panicked h no_panic c = absurd (no_panic h)
    on_outcome (done phase) h no_panic c = ground (arith, c phase h)
