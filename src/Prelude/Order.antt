-- ===== src/Prelude/Order.antt =====
-- The order of texts, which is the order of the keys of a map.
use Prim.Native.Nat.{compare as compare_ℕ, Ordering}
use Prim.Native.String.{compare, then}
use Prim.Native.String.compare as Clauses
use text.Mathlib.TextEquality.{path_by_compare}
use forgeant.Prelude.{ℕ, Char, code, String, ◌≡◌, ◌≢◌, refl, sym, ◌∙◌, ap, arith, ◌⊎◌, inl, inr}

-- The answer for the arguments the other way round.
abbrev pub swap : Ordering → Ordering
swap Ordering.lt = Ordering.gt
swap Ordering.eq = Ordering.eq
swap Ordering.gt = Ordering.lt

codes-swap : (a b : ℕ) → compare_ℕ b a ≡ swap (compare_ℕ a b)
codes-swap a b = ground arith

swap-then : (a b : Ordering) → swap (then a b) ≡ then (swap a) (swap b)
swap-then Ordering.lt b = refl
swap-then Ordering.eq b = refl
swap-then Ordering.gt b = refl

compare-cons :
    (c d : Char) (s t : String)
    → compare (String.◌∷◌ c s) (String.◌∷◌ d t) ≡ then (compare_ℕ (code c) (code d)) (compare s t)
compare-cons c d s t = λ i. Clauses.cons-cons c d s t i

pub compare-swap : (s t : String) → compare t s ≡ swap (compare s t)
compare-swap String.[] String.[] = (λ i. Clauses.nil-nil i) ∙ ap swap (sym (λ i. Clauses.nil-nil i))
compare-swap String.[] (String.◌∷◌ d t) =
    (λ i. Clauses.cons-nil d t i) ∙ ap swap (sym (λ i. Clauses.nil-cons d t i))
compare-swap (String.◌∷◌ c s) String.[] =
    (λ i. Clauses.nil-cons c s i) ∙ ap swap (sym (λ i. Clauses.cons-nil c s i))
compare-swap (String.◌∷◌ c s) (String.◌∷◌ d t) =
    compare-cons d c t s
    ∙ ap (λ o. then o (compare t s)) (codes-swap (code c) (code d))
    ∙ ap (then (swap (compare_ℕ (code c) (code d)))) (compare-swap s t)
    ∙ sym (swap-then (compare_ℕ (code c) (code d)) (compare s t))
    ∙ ap swap (sym (compare-cons c d s t))

then-lt :
    (a b : Ordering)
    → then a b ≡ Ordering.lt
    → (a ≡ Ordering.lt) ⊎ ((a ≡ Ordering.eq) × (b ≡ Ordering.lt))
then-lt Ordering.lt b e = inl refl
then-lt Ordering.eq b e = inr (refl, e)
then-lt Ordering.gt b e = cc

codes_trans :
    (a b c : ℕ)
    → compare_ℕ a b ≡ Ordering.lt
    → compare_ℕ b c ≡ Ordering.lt
    → compare_ℕ a c ≡ Ordering.lt
codes_trans a b c e f = ground arith

codes_eq : (a b : ℕ) → compare_ℕ a b ≡ Ordering.eq → a ≡ b
codes_eq a b e = ground arith

lt_not_gt : Ordering.gt ≢ Ordering.lt
lt_not_gt e = cc

lt_not_eq : Ordering.eq ≢ Ordering.lt
lt_not_eq e = cc

not_below : (s : String) → compare s String.[] ≢ Ordering.lt
not_below String.[] e = lt_not_eq (sym Clauses.nil-nil ∙ e)
not_below (String.◌∷◌ c s) e = lt_not_gt (sym (Clauses.cons-nil c s) ∙ e)

pub compare_trans :
    (s t u : String)
    → compare s t ≡ Ordering.lt
    → compare t u ≡ Ordering.lt
    → compare s u ≡ Ordering.lt
compare_trans s String.[] u e f = absurd (not_below s e)
compare_trans s t String.[] e f = absurd (not_below t f)
compare_trans String.[] t (String.◌∷◌ d u) e f = λ i. Clauses.nil-cons d u i
compare_trans (String.◌∷◌ b s) (String.◌∷◌ c t) (String.◌∷◌ d u) e f =
    compare-cons b d s u ∙ elim (then-lt _ _ (sym (compare-cons b c s t) ∙ e)) [
      | inl b_c ↦ elim (then-lt _ _ (sym (compare-cons c d t u) ∙ f)) [
        | inl c_d ↦ ap (λ o. then o (compare s u)) (codes_trans (code b) (code c) (code d) b_c c_d)
        | inr (c_d, _) ↦
            ap (λ o. then o (compare s u))
              (ap (compare_ℕ (code b)) (sym (codes_eq (code c) (code d) c_d)) ∙ b_c)
      ]
      | inr (b_c, s_t) ↦ elim (then-lt _ _ (sym (compare-cons c d t u) ∙ f)) [
        | inl c_d ↦
            ap (λ o. then o (compare s u))
              (ap (λ n. compare_ℕ n (code d)) (codes_eq (code b) (code c) b_c) ∙ c_d)
        | inr (c_d, t_u) ↦
            ap (λ o. then o (compare s u))
              (ap (λ n. compare_ℕ n (code d)) (codes_eq (code b) (code c) b_c) ∙ c_d)
            ∙ compare_trans s t u s_t t_u
      ]
    ]

-- A text that is neither equal to another one nor before it is behind it.
pub compare_total : (s t : String) → s ≢ t → compare s t ≢ Ordering.lt → compare t s ≡ Ordering.lt
compare_total s t apart not_lt = go (compare s t) refl
  where
    go : (o : Ordering) → compare s t ≡ o → compare t s ≡ Ordering.lt
    go Ordering.lt e = absurd (not_lt e)
    go Ordering.eq e = absurd (apart (path_by_compare s t e))
    go Ordering.gt e = compare-swap s t ∙ ap swap e

pub compare_asym : (s t : String) → compare s t ≡ Ordering.lt → compare t s ≢ Ordering.lt
compare_asym s t e f = lt_not_gt (sym (compare-swap s t ∙ ap swap e) ∙ f)
