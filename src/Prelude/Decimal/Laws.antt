-- ===== src/Prelude/Decimal/Laws.antt =====
-- What `to_string` writes, as a decimal numeral without leading zeros.
use mathlib.Core.Path.{subst}
use text.Mathlib.TextLemmas.{append_assoc, append-nil}
use forgeant.Prelude.{
  ℕ, zero, suc, ◌+◌, ◌*◌, ◌/◌, ◌%◌, ◌<◌, ◌≤◌, Char, code, String, ◌<>◌, ◌≡◌, refl, sym, ◌∙◌, arith,
  ltb, Bool-cases, inl, inr,
}
use forgeant.Prelude.Int.{ℤ, pos, negsuc}
use forgeant.Prelude.Decimal.{digit, digits, decimal, to_string}

-- A text of one digit.
pub record IsDigit (d : ℕ) (t : String) : Type 0 where
  pub char : Char
  pub shown : t ≡ String.◌∷◌ char String.[]
  pub below : d < 10
  pub value : code char ≡ 48 + d

-- A decimal numeral, from its last digit to its first one; a longer one does not start with 0.
pub data IsDecimal : ℕ → String → Type 0 where
  single : {n : ℕ} {t : String} → IsDigit n t → IsDecimal n t
  longer :
      {m n d : ℕ} {s t u : String}
      → IsDecimal n t
      → 0 < n
      → IsDigit d u
      → m ≡ n * 10 + d
      → s ≡ t <> u
      → IsDecimal m s

-- An integer: a numeral, or a minus in front of one that is not 0.
pub data IsInteger : ℤ → String → Type 0 where
  plain : {n : ℕ} {t : String} → IsDecimal n t → IsInteger (pos n) t
  minus : {n : ℕ} {t s : String} → IsDecimal (suc n) t → s ≡ "-" <> t → IsInteger (negsuc n) s

digit-IsDigit : (d : ℕ) → d < 10 → IsDigit d (digit d)
unfolding digit
digit-IsDigit zero h = record { char = "0"; shown = refl; below = h; value = refl }
digit-IsDigit (suc zero) h = record { char = "1"; shown = refl; below = h; value = refl }
digit-IsDigit (suc (suc zero)) h = record { char = "2"; shown = refl; below = h; value = refl }
digit-IsDigit (suc (suc (suc zero))) h = record {
  char = "3";
  shown = refl;
  below = h;
  value = refl;
}
digit-IsDigit (suc (suc (suc (suc zero)))) h = record {
  char = "4";
  shown = refl;
  below = h;
  value = refl;
}
digit-IsDigit (suc (suc (suc (suc (suc zero))))) h = record {
  char = "5";
  shown = refl;
  below = h;
  value = refl;
}
digit-IsDigit (suc (suc (suc (suc (suc (suc zero)))))) h = record {
  char = "6";
  shown = refl;
  below = h;
  value = refl;
}
digit-IsDigit (suc (suc (suc (suc (suc (suc (suc zero))))))) h = record {
  char = "7";
  shown = refl;
  below = h;
  value = refl;
}
digit-IsDigit (suc (suc (suc (suc (suc (suc (suc (suc zero)))))))) h = record {
  char = "8";
  shown = refl;
  below = h;
  value = refl;
}
digit-IsDigit (suc (suc (suc (suc (suc (suc (suc (suc (suc zero))))))))) h = record {
  char = "9";
  shown = refl;
  below = h;
  value = refl;
}
digit-IsDigit (suc (suc (suc (suc (suc (suc (suc (suc (suc (suc d)))))))))) h = absurd (omega arith)

digits-small : (f n : ℕ) (rest : String) → n < 10 → digits (suc f) n rest ≡ digit n <> rest
unfolding digits
digits-small f n rest h = ground arith

digits-large :
    (f n : ℕ) (rest : String)
    → 10 ≤ n
    → digits (suc f) n rest ≡ digits f (n / 10) (digit (n % 10) <> rest)
unfolding digits
digits-large f n rest h = ground arith

digits-IsDecimal :
    (fuel n : ℕ) (rest : String)
    → n < fuel
    → (t : String) × IsDecimal n t × (digits fuel n rest ≡ t <> rest)
digits-IsDecimal zero n rest h = absurd (omega arith)
digits-IsDecimal (suc f) n rest h = elim (Bool-cases (ltb n 10)) [
  | inl e ↦ (digit n, single (digit-IsDigit n (ground arith)), digits-small f n rest (ground arith))
  | inr e ↦
      let large : 10 ≤ n = ground arith in
      let last = digit (n % 10) in
      let more = digits-IsDecimal f (n / 10) (last <> rest) (omega arith) in
      (
        more.0 <> last,
        longer more.1 (omega arith) (digit-IsDigit (n % 10) (omega arith)) (omega arith) refl,
        digits-large f n rest large ∙ more.2 ∙ sym (append_assoc more.0 last rest),
      )
]

decimal-IsDecimal : (n : ℕ) → IsDecimal n (decimal n)
unfolding decimal
decimal-IsDecimal n =
    let found = digits-IsDecimal (suc n) n "" (omega arith) in
    subst (IsDecimal n) (sym (found.2 ∙ append-nil found.0)) found.1

-- `to_string` writes the numeral of the integer.
pub to_string-IsInteger : (n : ℤ) → IsInteger n (to_string n)
unfolding to_string
to_string-IsInteger (pos n) = plain (decimal-IsDecimal n)
to_string-IsInteger (negsuc n) = minus (decimal-IsDecimal (suc n)) refl
