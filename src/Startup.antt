-- ===== src/Startup.antt =====
-- src/startup.rs: the untagged startup message, to its packet and back.
pub mod Parameters
pub mod RoundTrip
use pg_proto.Base.{
  ℕ, zero, suc, ◌+◌, ◌^◌, ◌≡◌, List, [], ◌∷◌, ◌++◌, Option, none, some, not, ltb, leb, ◌==◌,
  if◌then◌else◌, length, take, drop, is_empty, Bytes, u32_to_be_bytes, Result, ok, err, ◌>>=◌, ◌>>◌,
}
use pg_proto.Wire.{Wire}
use pg_proto.OrderedMap.{Entries, insert, has_key}
use pg_proto.Codec.Primitives.{invalid, bad_input, position_nul, contains_nul}
use pg_proto.Codec.Backend.{ProtocolVersion}

pub record StartupMessage : Type 0 where
  pub version : ProtocolVersion
  pub parameters : Entries

unfoldable pub put_cstr : Bytes → Bytes → Result Bytes
put_cstr value output =
    if contains_nul value
    then err (bad_input "startup parameter contains a NUL byte")
    else ok ((output ++ value) ++ 0 ∷ [])

unfoldable pub take_cstr : Bytes → Result (Bytes × Bytes)
take_cstr input = elim (position_nul input) [
  | none ↦ err (invalid "unterminated startup parameter")
  | some end ↦ ok (take end input, drop 1 (drop end input))
]

unfoldable pub put_parameters : Entries → Bytes → Result Bytes
put_parameters [] output = ok output
put_parameters ((name, value) ∷ parameters) output = do
  output ← put_cstr name output
  output ← put_cstr value output
  put_parameters parameters output

-- `i32::try_from(output.len())`, and the length over the first four bytes.
unfoldable pub with_length : Bytes → Result Bytes
with_length output =
    if leb (2 ^ 31) (length output)
    then err (bad_input "startup packet too large")
    else ok (u32_to_be_bytes (length output) ++ drop 4 output)

-- The loop of `decode`, on the parameters read so far; each round takes at least two bytes of fuel.
unfoldable pub take_parameters : ℕ → Entries → Bytes → Result (Entries × Bytes)
take_parameters zero parameters packet = err (invalid "startup parameters have no final terminator")
take_parameters (suc fuel) parameters [] =
    err (invalid "startup parameters have no final terminator")
take_parameters (suc fuel) parameters (zero ∷ packet) = ok (parameters, packet)
take_parameters (suc fuel) parameters (suc b ∷ packet) = do
  (name, packet) ← take_cstr (suc b ∷ packet)
  (value, packet) ← take_cstr packet
  let rest = take_parameters fuel (insert name value parameters) packet
  if has_key name parameters then err (invalid "duplicate startup parameter") else rest

-- The message, if nothing is left of the packet.
unfoldable pub startup_of : ℕ → ℕ → Entries → Bytes → Result StartupMessage
startup_of major minor parameters packet =
    if not (is_empty packet)
    then err (invalid "startup packet has trailing bytes")
    else ok (record { version = record { major = major; minor = minor }; parameters = parameters })

module _ ⦃w : Wire⦄ where
  unfoldable pub encode : StartupMessage → Result Bytes
  unfolding put_parameters with_length
  encode m = do
    output ←
        put_parameters m.parameters
          ((0 ∷ 0 ∷ 0 ∷ 0 ∷ []) ++ (w.put_u16 m.version.major ++ w.put_u16 m.version.minor))
    with_length (output ++ 0 ∷ [])

  -- What follows the length.
  unfoldable pub decode_version : Bytes → Result StartupMessage
  unfolding take_parameters startup_of
  decode_version packet =
      let (major, packet) = w.get_u16 packet in
      let (minor, packet) = w.get_u16 packet in
      do
        (parameters, packet) ← take_parameters (suc (length packet)) [] packet
        startup_of major minor parameters packet

  unfoldable pub decode : Bytes → Result StartupMessage
  unfolding decode_version
  decode packet =
      if ltb (length packet) 8
      then err (invalid "startup packet is shorter than 8 bytes")
      else let (declared, packet) = w.get_u32 packet in
        if not (declared == length packet + 4)
        then err (invalid "startup packet length does not match its bytes")
        else decode_version packet
