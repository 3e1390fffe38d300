-- ===== src/Tests/Codec.antt =====
-- Concrete messages and frames through the codec.
use pg_proto.Base.{
  ◌+◌, ◌^◌, ◌<◌, ◌≤◌, [], ◌∷◌, ◌++◌, ◌≡◌, refl, none, some, Bytes, ok, pos, negsuc, length, arith,
}
use pg_proto.Tests.{big_endian}
use pg_proto.Codec.Frame.{Frame, encode, decode_frame, decode_item}
use pg_proto.Codec.Frame.Framing.{
  wire_bytes, encode-eq-ok, decode_frame-wire_bytes, decode_frame-prefix, decode_frame-eq-some,
}
use pg_proto.Codec.Frontend.{FrontendMessage, to_frame, decode, bind_to_frame}
use pg_proto.Codec.Primitives.{put_cstr, contains_nul, put_i16_vec, put_count, put_each, put_value}
use pg_proto.Codec.Frontend.Inverse.{decode-to_frame}
use pg_proto.Codec.Frontend.OnWire.{decode_item-encode}

-- A `Bind` of one value and one null.
abbrev bound : FrontendMessage
bound = FrontendMessage.bind (record {
  portal = [];
  statement = b's' ∷ [];
  parameter_formats = pos 1 ∷ [];
  parameters = some (7 ∷ 8 ∷ []) ∷ none ∷ [];
  result_formats = negsuc 0 ∷ [];
})

abbrev bound_body : Bytes
bound_body =
    0 ∷ b's' ∷ 0 ∷ 0 ∷ 1 ∷ 0 ∷ 1 ∷ 0 ∷ 2 ∷ 0 ∷ 0 ∷ 0 ∷ 2 ∷ 7 ∷ 8 ∷ 255 ∷ 255 ∷ 255 ∷ 255 ∷ 0 ∷ 1
    ∷ 255 ∷ 255 ∷ []

abbrev bound_frame : Frame
bound_frame = record { tag = b'B'; body = bound_body }

bound_framed : to_frame bound ≡ ok bound_frame
unfolding to_frame bind_to_frame put_cstr contains_nul put_i16_vec put_count put_each put_value
bound_framed = refl

bound_encoded : encode 100 bound_frame [] ≡ ok (wire_bytes bound_frame)
unfolding encode
bound_encoded = refl

decode_item-encode_example :
    decode_item decode 100 (wire_bytes bound_frame ++ (b'S' ∷ [])) ≡ (ok (some bound), b'S' ∷ [])
decode_item-encode_example =
    decode_item-encode 100 bound (b'S' ∷ []) ((omega arith, tt), (omega arith, tt)) (omega arith)
      bound_framed bound_encoded

decode-to_frame_example : decode bound_frame ≡ ok bound
decode-to_frame_example = decode-to_frame bound ((omega arith, tt), (omega arith, tt)) bound_framed

encode-eq-ok_example :
    (length bound_body + 5 ≤ 100)
    × (length bound_body + 4 < 2 ^ 32)
    × (wire_bytes bound_frame ≡ [] ++ wire_bytes bound_frame)
encode-eq-ok_example = encode-eq-ok 100 bound_frame [] bound_encoded

abbrev small : Frame
small = record { tag = b'd'; body = 1 ∷ 2 ∷ [] }

decode_frame-wire_bytes_example :
    decode_frame 64 (wire_bytes small ++ (9 ∷ [])) ≡ (ok (some small), 9 ∷ [])
decode_frame-wire_bytes_example =
    decode_frame-wire_bytes 64 small (9 ∷ []) (omega arith) (omega arith)

decode_frame-prefix_example :
    decode_frame 64 (b'd' ∷ 0 ∷ 0 ∷ 0 ∷ 6 ∷ 1 ∷ []) ≡ (ok none, b'd' ∷ 0 ∷ 0 ∷ 0 ∷ 6 ∷ 1 ∷ [])
decode_frame-prefix_example =
    decode_frame-prefix 64 small (b'd' ∷ 0 ∷ 0 ∷ 0 ∷ 6 ∷ 1 ∷ []) 2 [] (omega arith) (omega arith)
      refl

small_decoded : decode_frame 64 (wire_bytes small ++ (9 ∷ [])) ≡ (ok (some small), 9 ∷ [])
unfolding decode_frame
small_decoded = refl

decode_frame-eq-some_example :
    (wire_bytes small ++ (9 ∷ []) ≡ wire_bytes small ++ (9 ∷ [])) × (length small.body + 5 ≤ 64)
decode_frame-eq-some_example =
    decode_frame-eq-some 64 (wire_bytes small ++ (9 ∷ [])) (ground arith) small_decoded
