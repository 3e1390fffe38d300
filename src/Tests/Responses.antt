-- ===== src/Tests/Responses.antt =====
-- Concrete backend messages through the codec.
use pg_proto.Base.{[], ◌∷◌, ◌++◌, ◌≡◌, ◌↔◌, refl, some, Bytes, ok, arith}
use pg_proto.Tests.{big_endian}
use pg_proto.Codec.Frame.{Frame, encode, decode_item}
use pg_proto.Codec.Frame.Framing.{wire_bytes}
use pg_proto.Codec.Backend.{
  BackendMessage, sasl, authentication_frame, authentication_body, to_frame, decode,
  take_diagnostic_fields, take_mechanisms,
}
use pg_proto.Codec.Primitives.{put_cstr, put_each, contains_nul}
use pg_proto.Codec.Backend.Named.{NamesMechanisms}
use pg_proto.Codec.Backend.Loops.{take_loops_fuel}
use pg_proto.Codec.Backend.OnWire.{decode_item-encode_backend}

abbrev offer : BackendMessage
offer = BackendMessage.authentication (sasl ((b'S' ∷ []) ∷ (b'P' ∷ []) ∷ []))

abbrev offer_frame : Frame
offer_frame = record { tag = b'R'; body = 0 ∷ 0 ∷ 0 ∷ 10 ∷ b'S' ∷ 0 ∷ b'P' ∷ 0 ∷ 0 ∷ [] }

offer_framed : to_frame offer ≡ ok offer_frame
unfolding to_frame authentication_frame authentication_body put_each put_cstr contains_nul
offer_framed = refl

offer_encoded : encode 100 offer_frame [] ≡ ok (wire_bytes offer_frame)
unfolding encode
offer_encoded = refl

decode_item-encode_backend_example :
    NamesMechanisms offer
    ↔ (decode_item decode 100 (wire_bytes offer_frame ++ (9 ∷ [])) ≡ (ok (some offer), 9 ∷ []))
decode_item-encode_backend_example =
    decode_item-encode_backend 100 offer (9 ∷ []) tt (omega arith) offer_framed offer_encoded

abbrev fields : Bytes
fields = b'S' ∷ b'E' ∷ 0 ∷ 0 ∷ []

take_loops_fuel_example :
    (take_diagnostic_fields 5 fields ≡ take_diagnostic_fields 40 fields)
    × (take_mechanisms 5 fields ≡ take_mechanisms 40 fields)
take_loops_fuel_example = take_loops_fuel 5 40 fields (omega arith) (omega arith)
