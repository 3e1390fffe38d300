-- ===== src/Tests/Proxy.antt =====
-- A concrete registry of cancellation keys, and a concrete connection of an intermediary.
use pg_proto.Base.{[], ◌∷◌, ◌≡◌, refl, some, none, Bytes, ok, List}
use pg_proto.Tests.{big_endian}
use pg_proto.Demux.Route.{CancelKey}
use pg_proto.HashMap.{get, contains_key, insert, remove}
use pg_proto.PreStartup.{PreStartupMessage, to_packet}
use pg_proto.CancelKeys.{new, register, resolve, validate_key, cancel_key_eq, cancel_key_key}
use pg_proto.CancelKeys.Refine.{Operation, register_op, resolve_op, run, registry_run, run-refines}
use pg_proto.CancelKeys.Encodable.{after, resolve-encodes}

abbrev client : CancelKey
client = record { process_id = 7; secret_key = 1 ∷ 2 ∷ 3 ∷ 4 ∷ [] }

abbrev upstream : CancelKey
upstream = record { process_id = 42; secret_key = 5 ∷ 6 ∷ 7 ∷ 8 ∷ 9 ∷ [] }

abbrev operations : List Operation
operations =
    register_op client upstream ∷ register_op client client ∷ resolve_op 7 (1 ∷ 2 ∷ 3 ∷ 4 ∷ []) ∷ []

new-empty : (k : CancelKey) → get new.mappings k ≡ none
unfolding new get
new-empty k = refl

run-refines_example : run new operations ≡ registry_run (λ (k : CancelKey). none) operations
run-refines_example = run-refines new (λ k. none) operations new-empty

resolved : resolve (after new operations) 7 (1 ∷ 2 ∷ 3 ∷ 4 ∷ []) ≡ some upstream
unfolding new register validate_key contains_key insert remove get resolve cancel_key_key
    cancel_key_eq
resolved = refl

resolve-encodes_example :
    ((packet : Bytes) × (to_packet (PreStartupMessage.cancel_request 7 (1 ∷ 2 ∷ 3 ∷ 4 ∷ []))
        ≡ ok packet))
    × ((packet : Bytes) × (to_packet (PreStartupMessage.cancel_request 42 (5 ∷ 6 ∷ 7 ∷ 8 ∷ 9 ∷ []))
          ≡ ok packet))
resolve-encodes_example = resolve-encodes operations 7 (1 ∷ 2 ∷ 3 ∷ 4 ∷ []) upstream resolved
