-- ===== src/Action.antt =====
-- A call that reads and writes a state and may throw. What was written before an exception stays
-- written, so the state comes back beside the exception too.
use forgeant.Outcome.{Outcome, ok, throw}

abbrev pub Action {ℓ} : Type ℓ → Type ℓ → Type ℓ
Action S A = S → Outcome A × S

abbrev pub pure {ℓ} : {S A : Type ℓ} → A → Action S A
pure a s = (ok a, s)

-- A step that touches no state.
abbrev pub lift {ℓ} : {S A : Type ℓ} → Outcome A → Action S A
lift r s = (r, s)

abbrev pub modify : {S : Type 0} → (S → S) → Action S Unit
modify f s = (ok tt, f s)

abbrev pub continue {ℓ} : {S A B : Type ℓ} → Outcome A → (A → Action S B) → Action S B
continue (ok a) f s = f a s
continue (throw e) f s = (throw e, s)

infixl 5 ◌>>=◌ ◌>>◌
abbrev pub ◌>>=◌ {ℓ} : {S A B : Type ℓ} → Action S A → (A → Action S B) → Action S B
◌>>=◌ m f s = continue (m s).0 f (m s).1

abbrev pub ◌>>◌ : {S B : Type 0} → Action S Unit → Action S B → Action S B
m >> k = m >>= λ _. k
