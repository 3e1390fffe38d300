-- ===== src/PreStartup.antt =====
-- src/pre_startup.rs: the untagged packets before the startup, and the negotiation of encryption.
pub mod Packets
pub mod Policy
use pg_proto.Base.{
  ℕ, ◌+◌, ◌-◌, ◌*◌, ◌^◌, ◌≡◌, Bool, true, false, ◌&&◌, List, [], ◌∷◌, ◌++◌, Option, none, some, not,
  ltb, leb, ◌==◌, if◌then◌else◌, length, take, drop, Bytes, u32_to_be_bytes, u32_from_be_bytes,
  Result, ok, err, map_ok,
}
use pg_proto.Wire.{Wire}
use pg_proto.Codec.Primitives.{invalid, bad_input}
use pg_proto.Codec.Backend.{key_length_allowed}
use pg_proto.Startup.{StartupMessage, encode, decode}

abbrev pub ssl_request_code : ℕ
ssl_request_code = 80_877_103

abbrev pub gssenc_request_code : ℕ
gssenc_request_code = 80_877_104

abbrev pub cancel_request_code : ℕ
cancel_request_code = 80_877_102

abbrev pub default_max_pre_startup_packet_len : ℕ
default_max_pre_startup_packet_len = 10_000

pub data PreStartupMessage : Type 0 where
  ssl_request gss_enc_request : PreStartupMessage
  cancel_request : ℕ → Bytes → PreStartupMessage
  startup : StartupMessage → PreStartupMessage

unfoldable pub request_packet : ℕ → Bytes
request_packet code = u32_to_be_bytes 8 ++ u32_to_be_bytes code

-- `u32::from_be_bytes` of the bytes of a word. The source indexes behind a check of the length, so
-- there are four bytes where it is called.
abbrev pub leading_word : Bytes → ℕ
leading_word (a ∷ b ∷ c ∷ d ∷ rest) = u32_from_be_bytes a b c d
leading_word _ = 0

module _ ⦃w : Wire⦄ where
  -- `u32::try_from` of a length of at most 256 does not fail.
  unfoldable pub cancel_packet : ℕ → Bytes → Result Bytes
  cancel_packet process_id secret_key =
      if not (key_length_allowed secret_key)
      then err (bad_input "cancellation key length is outside 4..=256")
      else ok (
          w.put_u32 (12 + length secret_key)
          ++ (w.put_u32 cancel_request_code ++ (w.put_u32 process_id ++ secret_key)))

  unfoldable pub to_packet : PreStartupMessage → Result Bytes
  unfolding request_packet cancel_packet
  to_packet PreStartupMessage.ssl_request = ok (request_packet ssl_request_code)
  to_packet PreStartupMessage.gss_enc_request = ok (request_packet gssenc_request_code)
  to_packet (PreStartupMessage.cancel_request process_id secret_key) =
      cancel_packet process_id secret_key
  to_packet (PreStartupMessage.startup message) = encode message

  unfoldable pub decode_cancel : Bytes → Result PreStartupMessage
  decode_cancel packet =
      if not (leb 16 (length packet) && leb (length packet) 268)
      then err (invalid "invalid CancelRequest length")
      else ok (PreStartupMessage.cancel_request (leading_word (drop 8 packet)) (drop 12 packet))

  -- `match code`, on a complete packet.
  unfoldable pub decode_packet : Bytes → Result PreStartupMessage
  unfolding decode_cancel
  decode_packet packet =
      let code = leading_word (drop 4 packet) in
      if code == ssl_request_code && length packet == 8
      then ok PreStartupMessage.ssl_request
      else if code == gssenc_request_code && length packet == 8
      then ok PreStartupMessage.gss_enc_request
      else if code == cancel_request_code
      then decode_cancel packet
      else map_ok PreStartupMessage.startup (decode packet)

  -- The outcome and the bytes left, which only a complete packet shortens.
  unfoldable pub decode_pre_startup_with_limit :
      Bytes → ℕ → Result (Option PreStartupMessage) × Bytes
  unfolding decode_packet
  decode_pre_startup_with_limit input max_packet_len =
      if not (leb 8 max_packet_len && leb max_packet_len (2 ^ 31 - 1))
      then (err (invalid "pre-startup packet limit must be between 8 and i32::MAX bytes"), input)
      else if ltb (length input) 4
      then (ok none, input)
      else let declared = leading_word input in
        if ltb declared 8
        then (err (invalid "pre-startup packet is shorter than 8 bytes"), input)
        else if ltb (2 ^ 31 - 1) declared
        then (err (invalid "pre-startup packet length exceeds i32::MAX"), input)
        else if ltb max_packet_len declared
        then (err (invalid "pre-startup packet exceeds configured limit"), input)
        else if ltb (length input) declared
        then (ok none, input)
        else (map_ok some (decode_packet (take declared input)), drop declared input)

  unfoldable pub decode_pre_startup : Bytes → Result (Option PreStartupMessage) × Bytes
  unfolding decode_pre_startup_with_limit
  decode_pre_startup input = decode_pre_startup_with_limit input default_max_pre_startup_packet_len
