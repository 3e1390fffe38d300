-- ===== src/Codec/Frontend/OnWire.antt =====
-- src/codec.rs: a frontend message through the encoder and the decoder of `PgCodec<Frontend>`.
use pg_proto.Base.{ℕ, ◌≤◌, ◌≡◌, ◌∙◌, ap, [], ◌++◌, some, Bytes, ok}
use pg_proto.Wire.{Wire}
use pg_proto.Codec.Frame.{
  Frame, max_protocol_frame_len, encode, decode_with, decode_item, lift_message,
}
use pg_proto.Codec.Frame.Framing.{encode-eq-ok, decode_frame-wire_bytes}
use pg_proto.Codec.Frontend.Messages.{FrontendMessage}
use pg_proto.Codec.Frontend.Encode.{to_frame}
use pg_proto.Codec.Frontend.Decode.{decode}
use pg_proto.Codec.Frontend.Inverse.{IsTyped, decode-to_frame}

module _ ⦃w : Wire⦄ where
  -- A well-typed message that `to_frame` accepts, and whose frame a codec encodes under a legal
  -- limit, is decoded from its bytes under that limit, and what follows its bytes is left.
  pub decode_item-encode :
      (limit : ℕ) (m : FrontendMessage) (rest : Bytes) {f : Frame} {out : Bytes}
      → IsTyped m
      → limit ≤ max_protocol_frame_len
      → to_frame m ≡ ok f
      → encode limit f [] ≡ ok out
      → decode_item decode limit (out ++ rest) ≡ (ok (some m), rest)
  unfolding decode_item decode_with lift_message
  decode_item-encode limit m rest {f} {out} typed legal framed encoded =
      let (fits, small, is_out) = encode-eq-ok limit f [] encoded in
      ap (λ b. decode_item decode limit (b ++ rest)) is_out
      ∙ ap (decode_with decode) (decode_frame-wire_bytes limit f rest fits legal)
      ∙ ap (λ r. (lift_message f.tag r, rest)) (decode-to_frame m typed framed)
