-- ===== src/Demux/Events.antt =====
-- What `Demux::route` of src/demux.rs keeps, and what it hands on.
use pg_proto.Base.{
  ℕ, suc, ◌-◌, ◌^◌, ◌<◌, Bool, true, false, not, List, [], ◌∷◌, ◌++◌, ◌≡◌, refl, arith, Option,
  none, some, if◌then◌else◌, map,
}
use mathlib.Core.Option
use mathlib.Core.List.{map-append}
use pg_proto.Pipeline.Invariant.{Grows}
use pg_proto.Pipeline.Invariant.Lists.{Grows-snoc}
use pg_proto.OrderedMap.{Entries, entries_eq_refl}
use pg_proto.Codec.Backend.{BackendMessage}
use pg_proto.Demux.{is_asynchronous}
use pg_proto.Demux.Route.{
  Demux, into_backend_message, route, push_async, changed_since, baseline, default, AsyncEvent,
  OrderedAsyncEvent, saturating_suc,
}

abbrev pub is_key_data : BackendMessage → Bool
is_key_data (BackendMessage.backend_key_data process_id secret_key) = true
is_key_data _ = false

-- A routed message is handed on, as the message itself, unless it is asynchronous and not
-- `BackendKeyData`; then nothing is handed on.
pub route-into_backend_message :
    (d : Demux) (m : BackendMessage)
    → (Option.map into_backend_message (route d m).1)
      ≡ (if (if is_asynchronous m then not (is_key_data m) else false) then none else some m)
unfolding route is_asynchronous
route-into_backend_message d m = ground arith

abbrev pub sequences : Demux → List ℕ
sequences d = map (λ e. e.sequence) d.async_events

-- The queued events are numbered in their order, below the next number; the flag says whether the
-- parameters differ from the baseline.
pub record IsConsistent (d : Demux) : Type 0 where
  pub ordered : Grows 0 (sequences d) d.next_async_sequence
  pub flagged : d.parameters_changed ≡ changed_since d.startup_parameters d.parameters false

sequences-push_async :
    (e : AsyncEvent) (d : Demux)
    → sequences (push_async e d) ≡ sequences d ++ d.next_async_sequence ∷ []
unfolding push_async
sequences-push_async e d = map-append (λ (o : OrderedAsyncEvent). o.sequence) d.async_events _

pushed :
    (e : AsyncEvent) (d : Demux)
    → d.next_async_sequence < 2 ^ 64 - 1
    → Grows 0 (sequences d) d.next_async_sequence
    → Grows 0 (sequences (push_async e d)) (push_async e d).next_async_sequence
unfolding push_async
pushed e d room g =
    let next : saturating_suc d.next_async_sequence ≡ suc d.next_async_sequence = ground arith in
    rw (sequences-push_async e d, next) (Grows-snoc 0 (sequences d) d.next_async_sequence g)

flag_ready :
    (s : Option Entries) (ps : Entries) (b : Bool)
    → b ≡ changed_since s ps false
    → b ≡ changed_since (some (baseline s ps)) ps false
flag_ready none ps b h = ground (arith, entries_eq_refl ps)
flag_ready (some startup) ps b h = h

flag_parameter :
    (s : Option Entries) (old new : Entries) (b : Bool)
    → b ≡ changed_since s old false
    → changed_since s new b ≡ changed_since s new false
flag_parameter none old new b h = h
flag_parameter (some startup) old new b h = refl

-- While fewer than 2^64 - 1 events have been numbered, routing any message keeps the queued events
-- numbered in their order below the next number, and the flag true to the baseline.
pub route-IsConsistent :
    (d : Demux) (m : BackendMessage)
    → IsConsistent d
    → d.next_async_sequence < 2 ^ 64 - 1
    → IsConsistent (route d m).0
unfolding route push_async
route-IsConsistent d (BackendMessage.notice_response fields) v room = record {
  ordered = pushed _ d room v.ordered;
  flagged = v.flagged;
}
route-IsConsistent d (BackendMessage.parameter_status name value) v room = record {
  ordered = pushed _ d room v.ordered;
  flagged = flag_parameter d.startup_parameters d.parameters _ d.parameters_changed v.flagged;
}
route-IsConsistent d (BackendMessage.notification_response process_id channel payload) v room =
    record { ordered = pushed _ d room v.ordered; flagged = v.flagged }
route-IsConsistent d (BackendMessage.ready_for_query status) v room = record {
  ordered = v.ordered;
  flagged = flag_ready d.startup_parameters d.parameters d.parameters_changed v.flagged;
}
route-IsConsistent d (BackendMessage.backend_key_data process_id secret_key) v room = record {
  ordered = v.ordered;
  flagged = v.flagged;
}
route-IsConsistent d (BackendMessage.command_complete tag) v room = record {
  ordered = v.ordered;
  flagged = v.flagged;
}
route-IsConsistent d _ v room = record { ordered = v.ordered; flagged = v.flagged }

pub default-IsConsistent : IsConsistent default
unfolding default
default-IsConsistent = record { ordered = omega arith; flagged = refl }
