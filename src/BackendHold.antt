-- ===== src/BackendHold.antt =====
-- src/backend_hold.rs: the response that is being decided on, and those that are held back in order.
use pg_proto.Base.{
  ℕ, ◌+◌, ◌-◌, ◌^◌, leb, if◌then◌else◌, Option, none, some, List, [], ◌∷◌, ◌++◌, length, Result, ok,
  err,
}
use pg_proto.Wire.{Wire}
use pg_proto.Codec.Frame.{Frame}
use pg_proto.Codec.Backend.{BackendMessage, to_frame}

-- `usize::saturating_add`, on 64 bits.
abbrev pub saturating_add : ℕ → ℕ → ℕ
saturating_add a b = if leb (2 ^ 64) (a + b) then 2 ^ 64 - 1 else a + b

pub record BackendHold : Type 0 where
  pub pending : Option (BackendMessage × ℕ)
  pub held : List BackendMessage
  pub held_bytes : ℕ

unfoldable pub default : BackendHold
default = record { pending = none; held = []; held_bytes = 0 }

-- `Result::map_or` of the frame.
abbrev frame_bytes : Result Frame → ℕ
frame_bytes (ok frame) = saturating_add (length frame.body) 5
frame_bytes (err e) = 0

module _ ⦃w : Wire⦄ where
  unfoldable pub retained_bytes : BackendMessage → ℕ
  retained_bytes message = frame_bytes (to_frame message)

  -- `none` is the panic of the `assert!`.
  unfoldable pub set_pending : BackendHold → BackendMessage → Option BackendHold
  unfolding retained_bytes
  set_pending hold message = elim hold.pending [
    | some p ↦ none
    | none ↦ some (record hold { pending = some (message, retained_bytes message) })
  ]

abbrev pub pending_message : BackendHold → Option BackendMessage
pending_message hold = elim hold.pending [ none ↦ none | some (message, bytes) ↦ some message ]

unfoldable pub take_pending : BackendHold → BackendHold
take_pending hold = record hold { pending = none }

-- `none` is the panic of the `expect`.
unfoldable pub hold_pending : BackendHold → Option BackendHold
hold_pending hold = elim hold.pending [
  | none ↦ none
  | some (message, bytes) ↦ some (record {
    pending = none;
    held = hold.held ++ message ∷ [];
    held_bytes = saturating_add hold.held_bytes bytes;
  })
]

-- The messages that the source returns are those held before.
unfoldable pub clear : BackendHold → BackendHold
clear hold = record hold { held = []; held_bytes = 0 }
