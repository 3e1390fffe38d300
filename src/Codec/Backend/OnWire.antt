-- ===== src/Codec/Backend/OnWire.antt =====
-- src/codec.rs: a backend message through the encoder and the decoder of `PgCodec<Backend>`.
use pg_proto.Base.{ℕ, ◌≤◌, ◌≡◌, ◌↔◌, sym, Result, err, ◌∙◌, ap, [], ◌++◌, some, Bytes, ok}
use pg_proto.Wire.{Wire}
use pg_proto.Codec.Frame.{
  Frame, max_protocol_frame_len, encode, decode_with, decode_item, lift_message,
}
use pg_proto.Codec.Frame.Framing.{encode-eq-ok, decode_frame-wire_bytes}
use pg_proto.Codec.Backend.Messages.{BackendMessage}
use pg_proto.Codec.Backend.Encode.{to_frame}
use pg_proto.Codec.Backend.Decode.{decode}
use pg_proto.Codec.Backend.Named.{NamesMechanisms, decode-NamesMechanisms}
use pg_proto.Codec.Backend.Inverse.{IsTyped, decode-to_frame}

lift_message-eq-some :
    (t : ℕ) (r : Result BackendMessage) {m : BackendMessage}
    → lift_message t r ≡ ok (some m)
    → r ≡ ok m
unfolding lift_message
lift_message-eq-some t (ok m) h = cc h
lift_message-eq-some t (err e) h = absurd (cc h)

module _ ⦃w : Wire⦄ where
  on_wire :
      (limit : ℕ) (f : Frame) (rest : Bytes) {out : Bytes}
      → limit ≤ max_protocol_frame_len
      → encode limit f [] ≡ ok out
      → decode_item decode limit (out ++ rest) ≡ (lift_message f.tag (decode f), rest)
  unfolding decode_item decode_with
  on_wire limit f rest legal encoded =
      let (fits, small, is_out) = encode-eq-ok limit f [] encoded in
      ap (λ b. decode_item decode limit (b ++ rest)) is_out
      ∙ ap (decode_with decode) (decode_frame-wire_bytes limit f rest fits legal)

  -- Let `to_frame` accept a backend message whose integers have the ranges of their Rust types, and
  -- let a codec encode its frame under a legal limit. Then decoding its bytes under that limit gives
  -- the message and leaves what follows its bytes exactly when the message offers no SASL mechanism
  -- with an empty name.
  pub decode_item-encode_backend :
      (limit : ℕ) (m : BackendMessage) (rest : Bytes) {f : Frame} {out : Bytes}
      → IsTyped m
      → limit ≤ max_protocol_frame_len
      → to_frame m ≡ ok f
      → encode limit f [] ≡ ok out
      → NamesMechanisms m ↔ (decode_item decode limit (out ++ rest) ≡ (ok (some m), rest))
  unfolding lift_message
  decode_item-encode_backend limit m rest {f} {out} typed legal framed encoded =
      let read = on_wire limit f rest legal encoded in
      (
        (λ named.
            read ∙ ap (λ r. (lift_message f.tag r, rest)) (decode-to_frame m typed named framed)),
        (λ decoded.
            decode-NamesMechanisms m framed
              (lift_message-eq-some f.tag (decode f) (ap (λ r. r.0) (sym read ∙ decoded)))),
      )
