-- ===== src/Http/Curl/Handles/Updates.antt =====
-- Maps from addresses with one place changed.
use native.Mathlib.Decide.{ℕ_discrete}
use mathlib.Core.Path.{fun_ext}
use forgeant.Prelude.{
  ℕ, ◌≡◌, ◌≢◌, sym, ◌∙◌, ap, true, false, ◌⊎◌, inl, inr, Option, none, some, eqb, arith,
}
use forgeant.Http.Curl.Handles.{update}

pub compare_cases : (p q : ℕ) → (p ≡ q) ⊎ (p ≢ q)
compare_cases p q = elim (ℕ_discrete p q) [ yes e ↦ inl e | no n ↦ inr n ]

module _ {A : Type 0} (f : ℕ → A) where
  pub update-here : (p : ℕ) (v : A) → update f p v p ≡ v
  update-here p v = ground arith

  pub update-there : (p : ℕ) (v : A) (q : ℕ) → q ≢ p → update f p v q ≡ f q
  update-there p v q n = ground arith

  -- What an updated map holds: the new value at its place, and what it held elsewhere.
  pub update-cases :
      (p : ℕ) (v : A) (q : ℕ) (w : A)
      → update f p v q ≡ w
      → ((q ≡ p) × (v ≡ w)) ⊎ ((q ≢ p) × (f q ≡ w))
  update-cases p v q w e = elim (compare_cases q p) [
    | inl same ↦ inl (same, sym (ap (update f p v) same ∙ update-here p v) ∙ e)
    | inr other ↦ inr (other, sym (update-there p v q other) ∙ e)
  ]

-- A value that is left where another one was removed.
pub kept :
    {A : Type 0} (f : ℕ → Option A) (p q : ℕ) (w : A)
    → update f p none q ≡ some w
    → (q ≢ p) × (f q ≡ some w)
kept f p q w e = elim (update-cases f p none q (some w) e) [ inl (_, bad) ↦ cc | inr h ↦ h ]

pub some_injective : {A : Type 0} (a b : A) → some a ≡ some b → a ≡ b
some_injective a b e = cc

pub update-update :
    {A : Type 0} (f : ℕ → A) (i : ℕ) (v w : A) → update (update f i v) i w ≡ update f i w
update-update f i v w = fun_ext λ q. ground arith

pub update-same : {A : Type 0} (f : ℕ → A) (i : ℕ) (v : A) → f i ≡ v → update f i v ≡ f
update-same f i v e = fun_ext λ q. ground arith

pub eqb_same : (n : ℕ) → eqb n n ≡ true
eqb_same n = ground arith

pub eqb_apart : (m n : ℕ) → m ≢ n → eqb m n ≡ false
eqb_apart m n h = ground arith

pub absent : {A : Type 0} (x : A) → some x ≢ none
absent x e = cc
