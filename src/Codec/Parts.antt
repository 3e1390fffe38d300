-- ===== src/Codec/Parts.antt =====
-- A buffer as the list of the parts that the writers have appended to it, the last one first.
use pg_proto.Base.{
  ℕ, ◌≡◌, refl, sym, ap, ◌∙◌, List, [], ◌∷◌, ◌++◌, arith, append_assoc, append-nil, Bytes, Result,
  ok,
}
use pg_proto.Codec.Frame.{Frame}
use pg_proto.Codec.Simple.{frame}
use mathlib.Core.Path.{subst}

pub data Wrote : List Bytes → Bytes → Type 0 where
  start : {b x : Bytes} → b ≡ x → Wrote (x ∷ []) b
  given : (b : Bytes) → Wrote (b ∷ []) b
  more : {ps : List Bytes} {b c x : Bytes} → Wrote ps b → c ≡ b ++ x → Wrote (x ∷ ps) c

-- The parts in the order of the bytes, in front of `rest`.
abbrev pub parts_onto : List Bytes → Bytes → Bytes
parts_onto [] rest = rest
parts_onto (p ∷ ps) rest = parts_onto ps (p ++ rest)

Wrote-parts_onto :
    {ps : List Bytes} {b : Bytes} (rest : Bytes) → Wrote ps b → b ++ rest ≡ parts_onto ps rest
Wrote-parts_onto rest (start e) = ap (λ t. t ++ rest) e
Wrote-parts_onto rest (given b) = refl
Wrote-parts_onto rest (more {b = b} {x = x} wrote e) =
    ap (λ t. t ++ rest) e ∙ append_assoc b x rest ∙ Wrote-parts_onto (x ++ rest) wrote

-- What decodes the parts decodes the frame that was built of them.
pub frame_of_parts {ℓ} :
    {D : Type ℓ} (decode : Bytes → Result D) (m : D) (t : ℕ) {ps : List Bytes} {b : Bytes}
    {f : Frame}
    → Wrote ps b
    → ok (frame t b) ≡ ok f
    → decode (parts_onto ps []) ≡ ok m
    → (f.tag ≡ t) × (decode f.body ≡ ok m)
frame_of_parts decode m t {ps} {b} {f} wrote h d = (
  ground arith,
  subst (λ c. decode c ≡ ok m) (sym (Wrote-parts_onto [] wrote) ∙ append-nil b ∙ body) d,
)
  where
    body : b ≡ f.body
    body = ground arith
