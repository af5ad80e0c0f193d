-- ===== src/Common/Run.antt =====
-- What a Go function that mutates an object and may panic leaves behind: the object's state when
-- it returned, or when the panic left it.
use mathlib.Core.Path.{◌≡◌, refl}
use mathlib.Core.Bool.{Bool, true, false}

pub data Run {ℓ} (S : Type ℓ) : Type ℓ where
  returned : S → Run S
  panicked : S → Run S

abbrev pub state {ℓ} : {S : Type ℓ} → Run S → S
state (returned s) = s
state (panicked s) = s

abbrev pub panics {ℓ} : {S : Type ℓ} → Run S → Bool
panics (returned s) = false
panics (panicked s) = true

-- the call of a method on a field, written back into the object that holds the field
abbrev pub within {ℓ κ} : {S : Type ℓ} {T : Type κ} → (S → T) → Run S → Run T
within f (returned s) = returned (f s)
within f (panicked s) = panicked (f s)

pub state-within {ℓ κ} :
    {S : Type ℓ} {T : Type κ} (f : S → T) (r : Run S) → state (within f r) ≡ f (state r)
state-within f (returned s) = refl
state-within f (panicked s) = refl

pub panics-within {ℓ κ} :
    {S : Type ℓ} {T : Type κ} (f : S → T) (r : Run S) → panics (within f r) ≡ panics r
panics-within f (returned s) = refl
panics-within f (panicked s) = refl
