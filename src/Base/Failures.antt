-- ===== src/Base/Failures.antt =====
-- `Result<T, E>` with an error type of the caller's own.

pub data Outcome {ℓ κ} (T : Type ℓ) (E : Type κ) : Type (ℓ ⊔ κ) where
  done : T → Outcome T E
  failed : E → Outcome T E

-- `Result::map_err`.
abbrev pub map_err {ℓ κ μ} :
    {T : Type ℓ} {E : Type κ} {F : Type μ} → (E → F) → Outcome T E → Outcome T F
map_err f (done t) = done t
map_err f (failed e) = failed (f e)
