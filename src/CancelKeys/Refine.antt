-- ===== src/CancelKeys/Refine.antt =====
-- src/cancel.rs: the map against the keys as a partial function, over whole runs of operations.
use pg_proto.Base.{
  ℕ, ◌≡◌, Bool, if◌then◌else◌, Option, none, some, is_some, List, [], ◌∷◌, Bytes, length, leb, ◌&&◌,
  Outcome, done, failed, refl, ap, ◌∙◌, Bool-cases, inl, inr,
}
use pg_proto.HashMap.{get, contains_key, insert, get-insert_either, get-remove_either}
use pg_proto.Demux.Route.{CancelKey}
use pg_proto.CancelKeys.{
  CancelKeyMap, RegisterError, invalid_client_key_length, invalid_upstream_key_length,
  client_key_collision, validate_key, register, resolve, remove_key, cancel_key_eq, cancel_key_key,
}

pub data Operation : Type 0 where
  register_op : CancelKey → CancelKey → Operation
  resolve_op : ℕ → Bytes → Operation
  remove_op : CancelKey → Operation

pub data Answer : Type 0 where
  registered : Outcome (Unit {0}) RegisterError → Answer
  found : Option CancelKey → Answer

abbrev pub step : CancelKeyMap → Operation → CancelKeyMap × Answer
step keys (register_op client upstream) =
    let r = register keys client upstream in (r.0, registered r.1)
step keys (resolve_op process_id secret_key) = (keys, found (resolve keys process_id secret_key))
step keys (remove_op client) = let r = remove_key keys client in (r.0, found r.1)

-- The answers of a run.
abbrev pub run : CancelKeyMap → List Operation → List Answer
run keys [] = []
run keys (op ∷ ops) = (step keys op).1 ∷ run (step keys op).0 ops

-- The keys as a partial function, which a registration extends and a removal restricts.
abbrev pub Registry : Type 0
Registry = CancelKey → Option CancelKey

abbrev pub at : Registry → CancelKey → Option CancelKey → Registry
at registry client upstream k = if cancel_key_eq client k then upstream else registry k

abbrev pub is_encodable : CancelKey → Bool
is_encodable key = leb 4 (length key.secret_key) && leb (length key.secret_key) 256

abbrev pub registry_step : Registry → Operation → Registry × Answer
registry_step registry (register_op client upstream) =
    if is_encodable client
    then if is_encodable upstream
      then if is_some (registry client)
        then (registry, registered (failed client_key_collision))
        else (at registry client (some upstream), registered (done tt))
      else (
        registry,
        registered (failed (invalid_upstream_key_length (length upstream.secret_key))),
      )
    else (registry, registered (failed (invalid_client_key_length (length client.secret_key))))
registry_step registry (resolve_op process_id secret_key) =
    (registry, found (registry (record { process_id = process_id; secret_key = secret_key })))
registry_step registry (remove_op client) = (at registry client none, found (registry client))

abbrev pub registry_run : Registry → List Operation → List Answer
registry_run registry [] = []
registry_run registry (op ∷ ops) =
    (registry_step registry op).1 ∷ registry_run (registry_step registry op).0 ops

abbrev pub Agrees : CancelKeyMap → Registry → Type 0
Agrees keys registry = (k : CancelKey) → get keys.mappings k ≡ registry k

inserted :
    (keys : CancelKeyMap) (registry : Registry) (client upstream : CancelKey)
    → Agrees keys registry
    → Agrees
        (record { mappings = insert keys.mappings client upstream })
        (at registry client (some upstream))
unfolding cancel_key_key cancel_key_eq
inserted keys registry client upstream agrees k =
    get-insert_either keys.mappings client k upstream
    ∙ ap (λ o. if cancel_key_eq client k then some upstream else o) (agrees k)

removed :
    (keys : CancelKeyMap) (registry : Registry) (client : CancelKey)
    → Agrees keys registry
    → Agrees (remove_key keys client).0 (at registry client none)
unfolding remove_key cancel_key_key cancel_key_eq
removed keys registry client agrees k =
    get-remove_either keys.mappings client k
    ∙ ap (λ o. if cancel_key_eq client k then none else o) (agrees k)

register-Agrees :
    (keys : CancelKeyMap) (registry : Registry) (client upstream : CancelKey)
    → Agrees keys registry
    → (registered (register keys client upstream).1
        ≡ (registry_step registry (register_op client upstream)).1)
      × Agrees
          (register keys client upstream).0
          (registry_step registry (register_op client upstream)).0
unfolding register validate_key contains_key
register-Agrees keys registry client upstream agrees =
    let here = agrees client in
    elim (Bool-cases (is_encodable client)) [
      | inr e ↦ rw (e, register, validate_key, contains_key) (refl, agrees)
      | inl e ↦ elim (Bool-cases (is_encodable upstream)) [
        | inr f ↦ rw (e, register, validate_key, contains_key, f) (refl, agrees)
        | inl f ↦ elim (Bool-cases (is_some (registry client))) [
          | inl g ↦ rw (e, register, validate_key, contains_key, f, here, g) (refl, agrees)
          | inr g ↦
              rw (e, register, validate_key, contains_key, f, here, g)
                (refl, inserted keys registry client upstream agrees)
        ]
      ]
    ]

-- One operation gives the answer of the registry, and the two still agree.
step-Agrees :
    (keys : CancelKeyMap) (registry : Registry) (op : Operation)
    → Agrees keys registry
    → ((step keys op).1 ≡ (registry_step registry op).1)
      × Agrees (step keys op).0 (registry_step registry op).0
unfolding resolve remove_key
step-Agrees keys registry (register_op client upstream) agrees =
    register-Agrees keys registry client upstream agrees
step-Agrees keys registry (resolve_op process_id secret_key) agrees =
    (ap found (agrees (record { process_id = process_id; secret_key = secret_key })), agrees)
step-Agrees keys registry (remove_op client) agrees =
    (ap found (agrees client), removed keys registry client agrees)

-- Whatever the operations, the map gives the answers of the partial function that it stands for.
pub run-refines :
    (keys : CancelKeyMap) (registry : Registry) (ops : List Operation)
    → Agrees keys registry
    → run keys ops ≡ registry_run registry ops
run-refines keys registry [] agrees = refl
run-refines keys registry (op ∷ ops) agrees =
    let (answer, still) = step-Agrees keys registry op agrees in
    rw answer (
      ap (λ rest. (registry_step registry op).1 ∷ rest)
        (run-refines (step keys op).0 (registry_step registry op).0 ops still))
