-- ===== src/CancelKeys.antt =====
-- src/cancel.rs: the cancellation keys that a proxy gives its clients, each for a key upstream.
pub mod Refine
pub mod Encodable
use pg_proto.Base.{
  ℕ, ◌≡◌, Bool, true, false, if◌then◌else◌, Option, none, some, length, leb, ◌&&◌, ◌==◌, Bytes, [],
  Outcome, done, failed, map_err, refl, arith,
}
use pg_proto.OrderedMap.{bytes_eq, bytes_eq_refl, bytes_eq_lem}
use pg_proto.HashMap.{HashMap, Key, get, contains_key, insert, remove}
use pg_proto.Demux.Route.{CancelKey}

unfoldable pub cancel_key_eq : CancelKey → CancelKey → Bool
unfolding bytes_eq
cancel_key_eq a b = a.process_id == b.process_id && bytes_eq a.secret_key b.secret_key

pub cancel_key_eq_refl : (k : CancelKey) → cancel_key_eq k k ≡ true
unfolding cancel_key_eq
cancel_key_eq_refl k = ground (arith, bytes_eq_refl k.secret_key)

pub cancel_key_eq_lem : (k l : CancelKey) → cancel_key_eq k l ≡ true → k ≡ l
unfolding cancel_key_eq
cancel_key_eq_lem k l h =
    let process : k.process_id ≡ l.process_id = ground arith in
    let secret = bytes_eq_lem k.secret_key l.secret_key (ground arith) in
    λ i. record { process_id = process i; secret_key = secret i }

instance unfoldable pub cancel_key_key : Key CancelKey
cancel_key_key = record {
  key_eq = cancel_key_eq;
  key_eq_refl = cancel_key_eq_refl;
  key_eq_lem = cancel_key_eq_lem;
}

pub record CancelKeyMap : Type 0 where
  pub mappings : HashMap CancelKey CancelKey

pub data RegisterError : Type 0 where
  invalid_client_key_length invalid_upstream_key_length : ℕ → RegisterError
  client_key_collision : RegisterError

unfoldable pub new : CancelKeyMap
new = record { mappings = [] }

unfoldable pub validate_key : CancelKey → Outcome (Unit {0}) ℕ
validate_key key =
    if leb 4 (length key.secret_key) && leb (length key.secret_key) 256
    then done tt
    else failed (length key.secret_key)

unfoldable pub register :
    CancelKeyMap → CancelKey → CancelKey → CancelKeyMap × Outcome (Unit {0}) RegisterError
unfolding validate_key contains_key insert
register keys client upstream = elim (map_err invalid_client_key_length (validate_key client)) [
  | failed e ↦ (keys, failed e)
  | done checked ↦ elim (map_err invalid_upstream_key_length (validate_key upstream)) [
    | failed e ↦ (keys, failed e)
    | done checked ↦
        if contains_key keys.mappings client
        then (keys, failed client_key_collision)
        else (record { mappings = insert keys.mappings client upstream }, done tt)
  ]
]

unfoldable pub resolve : CancelKeyMap → ℕ → Bytes → Option CancelKey
unfolding get
resolve keys process_id secret_key =
    get keys.mappings (record { process_id = process_id; secret_key = secret_key })

-- The key that was removed is `get` of the map before.
unfoldable pub remove_key : CancelKeyMap → CancelKey → CancelKeyMap × Option CancelKey
unfolding get remove
remove_key keys client =
    (record { mappings = remove keys.mappings client }, get keys.mappings client)

unfoldable pub is_empty : CancelKeyMap → Bool
is_empty keys = elim keys.mappings [ [] ↦ true | _ ↦ false ]
