-- ===== src/Startup/RoundTrip.antt =====
-- src/startup.rs: decoding an encoded startup message gives it back.
use pg_proto.Base.{
  suc, ◌+◌, ◌^◌, ◌≤◌, ◌<◌, ◌≡◌, refl, ap, ◌∙◌, [], ◌∷◌, ◌++◌, arith, All, length, Bytes, IsU16,
  append_assoc, length-append, ok, >>=-eq-ok, u32_to_be_bytes,
}
use mathlib.Core.Path.{subst}
use pg_proto.Wire.{Wire}
use pg_proto.OrderedMap.{IsSorted}
use pg_proto.Codec.Primitives.Inverse.{
  get_u16-put_u16, get_u32-u32_to_be_bytes, length-put_u16, encode_all,
}
use pg_proto.Startup.{
  StartupMessage, put_parameters, with_length, startup_of, encode, decode_version, decode,
}
use pg_proto.Startup.Parameters.{
  parameter_bytes, IsParameter, IsNamed, put_parameters-eq-ok, take_parameters-parameters,
  AllAbove-empty, fuel_enough,
}

with_length_lem :
    (tail : Bytes) {packet : Bytes}
    → with_length (0 ∷ 0 ∷ 0 ∷ 0 ∷ tail) ≡ ok packet
    → (length tail + 4 < 2 ^ 31) × (packet ≡ u32_to_be_bytes (length tail + 4) ++ tail)
unfolding with_length
with_length_lem tail h = ground arith

-- What follows the length in the packet of a message.
module _ ⦃w : Wire⦄ where
  abbrev pub payload : StartupMessage → Bytes
  payload m =
      w.put_u16 m.version.major
      ++ (w.put_u16 m.version.minor ++ (encode_all parameter_bytes m.parameters ++ (0 ∷ [])))

  abbrev pub VersionIsTyped : StartupMessage → Type 0
  VersionIsTyped m = IsU16 m.version.major × IsU16 m.version.minor

  pub encode-eq-ok_startup :
      (m : StartupMessage) {packet : Bytes}
      → encode m ≡ ok packet
      → All IsParameter m.parameters
        × (length (payload m) + 4 < 2 ^ 31)
        × (packet ≡ u32_to_be_bytes (length (payload m) + 4) ++ payload m)
  unfolding encode with_length
  encode-eq-ok_startup m {packet} h =
      let zeros : Bytes = 0 ∷ 0 ∷ 0 ∷ 0 ∷ [] in
      let (b1, w1, h1) =
        >>=-eq-ok
          (put_parameters m.parameters
            (zeros ++ (w.put_u16 m.version.major ++ w.put_u16 m.version.minor)))
          _ h in
      let (all, e1) = put_parameters-eq-ok m.parameters _ w1 in
      let out : b1 ++ 0 ∷ [] ≡ zeros ++ payload m =
        ap (λ t. t ++ 0 ∷ []) e1
        ∙ regroup zeros (w.put_u16 m.version.major) (w.put_u16 m.version.minor)
            (encode_all parameter_bytes m.parameters) (0 ∷ []) in
      let h2 : with_length (zeros ++ payload m) ≡ ok packet =
        subst (λ t. with_length t ≡ ok packet) out h1 in
      let (small, is_packet) = with_length_lem (payload m) h2 in (all, small, is_packet)
    where
      regroup : (a b c d e : Bytes) → ((a ++ (b ++ c)) ++ d) ++ e ≡ a ++ (b ++ (c ++ (d ++ e)))
      regroup a b c d e = simp append_assoc

  decode_version-payload :
      (m : StartupMessage)
      → VersionIsTyped m
      → All IsParameter m.parameters
      → IsNamed m.parameters
      → IsSorted m.parameters
      → decode_version (payload m) ≡ ok m
  unfolding decode_version startup_of
  decode_version-payload m (tm, tn) all named sorted = rw (get_u16-put_u16 m.version.major _ tm) (
      rw (get_u16-put_u16 m.version.minor _ tn) (
        rw
          (take_parameters-parameters
            (suc (length (encode_all parameter_bytes m.parameters ++ (0 ∷ [])))) [] m.parameters []
            (fuel_enough m.parameters) all named sorted (AllAbove-empty m.parameters))
          refl))

  decode_sized :
      (tail : Bytes)
      → 4 ≤ length tail
      → length tail + 4 < 2 ^ 31
      → decode (u32_to_be_bytes (length tail + 4) ++ tail) ≡ decode_version tail
  unfolding decode
  decode_sized tail enough small =
      rw (get_u32-u32_to_be_bytes (length tail + 4) tail (omega arith)) (ground arith)

  pub four_bytes : (m : StartupMessage) → VersionIsTyped m → 4 ≤ length (payload m)
  four_bytes m (tm, tn) = omega (
    arith,
    length-put_u16 m.version.major tm,
    length-put_u16 m.version.minor tn,
    length-append (w.put_u16 m.version.major)
        (w.put_u16 m.version.minor ++ (encode_all parameter_bytes m.parameters ++ (0 ∷ []))),
    length-append (w.put_u16 m.version.minor) (encode_all parameter_bytes m.parameters ++ (0 ∷ [])),
  )

  -- Decoding an encoded startup message gives the message, when its parameters are in the order of
  -- their names with no name twice, as a `BTreeMap` holds them, and no name is empty.
  pub decode-encode :
      (m : StartupMessage) {packet : Bytes}
      → VersionIsTyped m
      → IsSorted m.parameters
      → IsNamed m.parameters
      → encode m ≡ ok packet
      → decode packet ≡ ok m
  unfolding decode
  decode-encode m typed sorted named h =
      let (all, small, e) = encode-eq-ok_startup m h in
      ap decode e
      ∙ decode_sized (payload m) (four_bytes m typed) small
      ∙ decode_version-payload m typed all named sorted
