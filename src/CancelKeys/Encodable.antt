-- ===== src/CancelKeys/Encodable.antt =====
-- src/cancel.rs: a key that the map resolves to can be sent in a CancelRequest.
use pg_proto.Base.{
  ℕ, ◌≡◌, true, some, List, [], ◌∷◌, Bytes, ok, refl, ap, ◌∙◌, sym, Bool-cases, inl, inr,
}
use pg_proto.Wire.{Wire}
use pg_proto.HashMap.{
  HashMap, get, contains_key, insert, remove, get-insert_either, get-remove_either,
}
use pg_proto.Demux.Route.{CancelKey}
use pg_proto.PreStartup.{PreStartupMessage, to_packet, cancel_packet}
use pg_proto.CancelKeys.{
  CancelKeyMap, new, validate_key, register, resolve, remove_key, cancel_key_key,
}
use pg_proto.CancelKeys.Refine.{Operation, register_op, resolve_op, remove_op, step, is_encodable}

-- The map after a run.
abbrev pub after : CancelKeyMap → List Operation → CancelKeyMap
after keys [] = keys
after keys (op ∷ ops) = after (step keys op).0 ops

-- Every live association is of two keys that a CancelRequest can carry.
abbrev AllEncodable : HashMap CancelKey CancelKey → Type 0
AllEncodable mappings =
    (k v : CancelKey) → get mappings k ≡ some v → (is_encodable k ≡ true) × (is_encodable v ≡ true)

insert-AllEncodable :
    (mappings : HashMap CancelKey CancelKey) (client upstream : CancelKey)
    → is_encodable client ≡ true
    → is_encodable upstream ≡ true
    → AllEncodable mappings
    → AllEncodable (insert mappings client upstream)
unfolding cancel_key_key
insert-AllEncodable mappings client upstream e f all k v h =
    let either = get-insert_either mappings client k upstream in
    elim (Bool-cases (cancel_key_key.key_eq client k)) [
      | inl same ↦
          let is_client : client ≡ k = cancel_key_key.key_eq_lem client k same in
          let is_upstream : upstream ≡ v = cc (rw same at either) in
          (ap is_encodable (sym is_client) ∙ e, ap is_encodable (sym is_upstream) ∙ f)
      | inr other ↦ all k v (sym (rw other at either) ∙ h)
    ]

remove-AllEncodable :
    (mappings : HashMap CancelKey CancelKey) (client : CancelKey)
    → AllEncodable mappings
    → AllEncodable (remove mappings client)
unfolding cancel_key_key
remove-AllEncodable mappings client all k v h =
    let either = get-remove_either mappings client k in
    elim (Bool-cases (cancel_key_key.key_eq client k)) [
      | inl same ↦ cc (rw same at either)
      | inr other ↦ all k v (sym (rw other at either) ∙ h)
    ]

register-AllEncodable :
    (keys : CancelKeyMap) (client upstream : CancelKey)
    → AllEncodable keys.mappings
    → AllEncodable (register keys client upstream).0.mappings
unfolding register validate_key
register-AllEncodable keys client upstream all = elim (Bool-cases (is_encodable client)) [
  | inr e ↦ rw (e, register, validate_key) all
  | inl e ↦ elim (Bool-cases (is_encodable upstream)) [
    | inr f ↦ rw (e, register, validate_key, f) all
    | inl f ↦ elim (Bool-cases (contains_key keys.mappings client)) [
      | inl g ↦ rw (e, register, validate_key, f, g) all
      | inr g ↦
          rw (e, register, validate_key, f, g)
            (insert-AllEncodable keys.mappings client upstream e f all)
    ]
  ]
]

step-AllEncodable :
    (keys : CancelKeyMap) (op : Operation)
    → AllEncodable keys.mappings
    → AllEncodable (step keys op).0.mappings
unfolding remove_key
step-AllEncodable keys (register_op client upstream) all =
    register-AllEncodable keys client upstream all
step-AllEncodable keys (resolve_op process_id secret_key) all = all
step-AllEncodable keys (remove_op client) all = remove-AllEncodable keys.mappings client all

after-AllEncodable :
    (keys : CancelKeyMap) (ops : List Operation)
    → AllEncodable keys.mappings
    → AllEncodable (after keys ops).mappings
after-AllEncodable keys [] all = all
after-AllEncodable keys (op ∷ ops) all =
    after-AllEncodable (step keys op).0 ops (step-AllEncodable keys op all)

new-AllEncodable : AllEncodable new.mappings
unfolding new get
new-AllEncodable k v h = cc

module _ ⦃w : Wire⦄ where
  to_packet-encodable :
      (key : CancelKey)
      → is_encodable key ≡ true
      → (packet : Bytes) × (to_packet
            (PreStartupMessage.cancel_request key.process_id key.secret_key)
          ≡ ok packet)
  unfolding to_packet cancel_packet
  to_packet-encodable key e = rw e (_, refl)

  -- After any operations on a new map, a client key that resolves is one that a CancelRequest can
  -- carry, and so is the upstream key that it resolves to: both packets encode.
  pub resolve-encodes :
      (ops : List Operation) (process_id : ℕ) (secret_key : Bytes) (upstream : CancelKey)
      → resolve (after new ops) process_id secret_key ≡ some upstream
      → ((packet : Bytes) × (to_packet (PreStartupMessage.cancel_request process_id secret_key)
            ≡ ok packet))
        × ((packet : Bytes) × (to_packet
                (PreStartupMessage.cancel_request upstream.process_id upstream.secret_key)
              ≡ ok packet))
  unfolding resolve
  resolve-encodes ops process_id secret_key upstream h =
      let client : CancelKey = record { process_id = process_id; secret_key = secret_key } in
      let (e, f) = after-AllEncodable new ops new-AllEncodable client upstream h in
      (to_packet-encodable client e, to_packet-encodable upstream f)
