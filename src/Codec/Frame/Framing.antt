-- ===== src/Codec/Frame/Framing.antt =====
-- Framing: an encoded frame is read back, a part of one is waited for, and the limit holds.
use pg_proto.Base.{
  ℕ, suc, ◌+◌, ◌-◌, ◌^◌, ◌≤◌, ◌<◌, ◌≡◌, refl, ◌∙◌, [], ◌∷◌, ◌++◌, none, some, arith, length, take,
  drop, length-append, append_assoc, take-append_length, drop-append_length, length-take,
  take-append-drop, IsByte, All, Bytes, u32_to_be_bytes, u32_from_be_bytes, u32_be_bytes, ok,
}
use pg_proto.Wire.{Wire}
use pg_proto.Codec.Frame.{Frame, max_protocol_frame_len, encode, decode_frame}

-- The bytes of a frame.
abbrev pub wire_bytes : Frame → Bytes
wire_bytes f = f.tag ∷ (u32_to_be_bytes (length f.body + 4) ++ f.body)

module _ ⦃w : Wire⦄ where
  -- When `encode` succeeds, the frame is within the limit, its length field fits 32 bits, and what
  -- it appends is the tag, the big-endian length and the body.
  pub encode-eq-ok :
      (limit : ℕ) (f : Frame) (destination : Bytes) {out : Bytes}
      → encode limit f destination ≡ ok out
      → (length f.body + 5 ≤ limit)
        × (length f.body + 4 < 2 ^ 32)
        × (out ≡ destination ++ wire_bytes f)
  unfolding encode
  encode-eq-ok limit f destination h = ground (arith, w.put_u32_be (length f.body + 4))

take_header :
    (k n tag a b c d : ℕ) (rest : Bytes)
    → k ≡ n + 5
    → (drop 5 (take k (tag ∷ a ∷ b ∷ c ∷ d ∷ rest)) ≡ take n rest)
      × (drop k (tag ∷ a ∷ b ∷ c ∷ d ∷ rest) ≡ drop n rest)
take_header k n tag a b c d rest e =
    let e' : k ≡ suc (suc (suc (suc (suc n)))) = omega arith in rw e' (refl, refl)

-- The decoder on a header that declares `n + 4` bytes.
decode_frame-wire :
    (limit : ℕ) (tag a b c d : ℕ) (rest : Bytes) (n : ℕ)
    → u32_from_be_bytes a b c d ≡ n + 4
    → n + 5 ≤ limit
    → limit ≤ max_protocol_frame_len
    → n ≤ length rest
    → decode_frame limit (tag ∷ a ∷ b ∷ c ∷ d ∷ rest)
      ≡ (ok (some (record { tag = tag; body = take n rest })), drop n rest)
unfolding decode_frame
decode_frame-wire limit tag a b c d rest n e fits legal enough =
    ground (arith, take_header (u32_from_be_bytes a b c d + 1) n tag a b c d rest)

decode_frame-short :
    (limit : ℕ) (tag a b c d : ℕ) (rest : Bytes) (n : ℕ)
    → u32_from_be_bytes a b c d ≡ n + 4
    → n + 5 ≤ limit
    → limit ≤ max_protocol_frame_len
    → length rest < n
    → decode_frame limit (tag ∷ a ∷ b ∷ c ∷ d ∷ rest) ≡ (ok none, tag ∷ a ∷ b ∷ c ∷ d ∷ rest)
unfolding decode_frame
decode_frame-short limit tag a b c d rest n e fits legal enough = ground arith

-- Under a legal limit that admits the frame, decoding its bytes with more behind them gives the
-- frame, and leaves what is behind.
pub decode_frame-wire_bytes :
    (limit : ℕ) (f : Frame) (rest : Bytes)
    → length f.body + 5 ≤ limit
    → limit ≤ max_protocol_frame_len
    → decode_frame limit (wire_bytes f ++ rest) ≡ (ok (some f), rest)
decode_frame-wire_bytes limit f rest fits legal =
    rw (append_assoc (u32_to_be_bytes (length f.body + 4)) f.body rest) (
      decode_frame-wire limit f.tag _ _ _ _ (f.body ++ rest) (length f.body)
        (u32_be_bytes (length f.body + 4) (omega arith)) fits legal
        (omega (arith, length-append f.body rest))
      ∙ ground (arith, take-append_length f.body rest, drop-append_length f.body rest))

header_short :
    (limit : ℕ) (front : Bytes) (n tag : ℕ) (a b c d x : ℕ) (body back : Bytes)
    → u32_from_be_bytes a b c d ≡ n + 4
    → n ≡ length body
    → n + 5 ≤ limit
    → limit ≤ max_protocol_frame_len
    → tag ∷ a ∷ b ∷ c ∷ d ∷ body ≡ front ++ x ∷ back
    → decode_frame limit front ≡ (ok none, front)
unfolding decode_frame
header_short limit [] n tag a b c d x body back e ln fits legal split = refl
header_short limit (_ ∷ []) n tag a b c d x body back e ln fits legal split = refl
header_short limit (_ ∷ _ ∷ []) n tag a b c d x body back e ln fits legal split = refl
header_short limit (_ ∷ _ ∷ _ ∷ []) n tag a b c d x body back e ln fits legal split = refl
header_short limit (_ ∷ _ ∷ _ ∷ _ ∷ []) n tag a b c d x body back e ln fits legal split = refl
header_short limit (t ∷ a' ∷ b' ∷ c' ∷ d' ∷ front) n tag a b c d x body back e ln fits legal split =
    decode_frame-short limit t a' b' c' d' front n (ground arith) fits legal
      (omega (arith, body_length, length-append front (x ∷ back)))
  where
    body_length : length body ≡ length (front ++ x ∷ back)
    body_length = ground arith

-- Under a legal limit that admits the frame, a proper prefix of its bytes gives no frame, and stays
-- in the buffer.
pub decode_frame-prefix :
    (limit : ℕ) (f : Frame) (front : Bytes) (x : ℕ) (back : Bytes)
    → length f.body + 5 ≤ limit
    → limit ≤ max_protocol_frame_len
    → wire_bytes f ≡ front ++ x ∷ back
    → decode_frame limit front ≡ (ok none, front)
decode_frame-prefix limit f front x back fits legal split =
    header_short limit front (length f.body) f.tag _ _ _ _ x f.body back
      (u32_be_bytes (length f.body + 4) (omega arith)) refl fits legal split

be_bytes_of :
    (a b c d : ℕ)
    → IsByte a
    → IsByte b
    → IsByte c
    → IsByte d
    → u32_to_be_bytes (u32_from_be_bytes a b c d) ≡ a ∷ b ∷ c ∷ d ∷ []
be_bytes_of a b c d ha hb hc hd = ground arith

-- What was taken as a frame is that frame's bytes, within the limit.
taken :
    (limit tag a b c d n : ℕ) (tail : Bytes) {f : Frame} {rest : Bytes}
    → IsByte a
    → IsByte b
    → IsByte c
    → IsByte d
    → u32_from_be_bytes a b c d ≡ n + 4
    → decode_frame limit (tag ∷ a ∷ b ∷ c ∷ d ∷ tail) ≡ (ok (some f), rest)
    → (tag ∷ a ∷ b ∷ c ∷ d ∷ tail ≡ wire_bytes f ++ rest) × (length f.body + 5 ≤ limit)
unfolding decode_frame
taken limit tag a b c d n tail ha hb hc hd e h = ground (
  arith,
  take_header (u32_from_be_bytes a b c d + 1) n tag a b c d tail,
  be_bytes_of a b c d ha hb hc hd,
  length-take n tail,
  take-append-drop n tail,
)

declared_ge :
    (limit tag a b c d : ℕ) (tail : Bytes) {f : Frame} {rest : Bytes}
    → decode_frame limit (tag ∷ a ∷ b ∷ c ∷ d ∷ tail) ≡ (ok (some f), rest)
    → 4 ≤ u32_from_be_bytes a b c d
unfolding decode_frame
declared_ge limit tag a b c d tail h = ground arith

-- When `decode_frame` takes a frame of a source of bytes, the source is the frame's bytes followed
-- by what is left, and the limit admits the frame.
pub decode_frame-eq-some :
    (limit : ℕ) (source : Bytes) {f : Frame} {rest : Bytes}
    → All IsByte source
    → decode_frame limit source ≡ (ok (some f), rest)
    → (source ≡ wire_bytes f ++ rest) × (length f.body + 5 ≤ limit)
decode_frame-eq-some limit (tag ∷ a ∷ b ∷ c ∷ d ∷ tail) (_, (ha, (hb, (hc, (hd, _))))) h =
    let large = declared_ge limit tag a b c d tail h in
    taken limit tag a b c d (u32_from_be_bytes a b c d - 4) tail ha hb hc hd (omega arith) h
decode_frame-eq-some limit [] all h = unfold decode_frame in ground arith
decode_frame-eq-some limit (_ ∷ []) all h = unfold decode_frame in ground arith
decode_frame-eq-some limit (_ ∷ _ ∷ []) all h = unfold decode_frame in ground arith
decode_frame-eq-some limit (_ ∷ _ ∷ _ ∷ []) all h = unfold decode_frame in ground arith
decode_frame-eq-some limit (_ ∷ _ ∷ _ ∷ _ ∷ []) all h = unfold decode_frame in ground arith
