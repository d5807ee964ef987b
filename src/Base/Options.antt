-- ===== src/Base/Options.antt =====
-- Steps that may give nothing.
use mathlib.Core.Option.{Option, none, some}

infixl 5 ◌>>=◌
abbrev pub ◌>>=◌ {ℓ κ} : {A : Type ℓ} {B : Type κ} → Option A → (A → Option B) → Option B
m >>= next = elim m [ some a ↦ next a | none ↦ none ]
