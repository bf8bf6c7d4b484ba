-- ===== src/Json/Text/Strings.antt =====
-- `write_string` against the grammar of a quoted text.
use mathlib.Core.Path.{subst}
use text.Mathlib.TextLemmas.{append_assoc, append-nil, cons-append, nil-append}
use forgeant.Prelude.{
  ℕ, zero, suc, ◌/◌, ◌%◌, ◌<◌, ◌≤◌, Char, code, String, ◌<>◌, ◌≡◌, ◌≢◌, refl, sym, ◌∙◌, ap, true,
  false, Bool-cases, inl, inr, eqb, ltb, arith,
}
use forgeant.Prelude.Decimal.{to_string}
use forgeant.Json.Text.{hex_digit, escape_code, escape, write_chars, write_string}
use forgeant.Json.Text.Grammar.{
  IsHex, decimal, letter, IsEscape, unicode, quote, backslash, backspace, form_feed, line_feed,
  carriage_return, tab, Quotes, empty, plain, escaped,
}

hex_digit-IsHex : (d : ℕ) → d < 16 → IsHex d (hex_digit d)
unfolding hex_digit to_string
hex_digit-IsHex zero h = decimal {c = "0"} (omega arith) refl refl
hex_digit-IsHex (suc zero) h = decimal {c = "1"} (omega arith) refl refl
hex_digit-IsHex (suc (suc zero)) h = decimal {c = "2"} (omega arith) refl refl
hex_digit-IsHex (suc (suc (suc zero))) h = decimal {c = "3"} (omega arith) refl refl
hex_digit-IsHex (suc (suc (suc (suc zero)))) h = decimal {c = "4"} (omega arith) refl refl
hex_digit-IsHex (suc (suc (suc (suc (suc zero))))) h = decimal {c = "5"} (omega arith) refl refl
hex_digit-IsHex (suc (suc (suc (suc (suc (suc zero)))))) h =
    decimal {c = "6"} (omega arith) refl refl
hex_digit-IsHex (suc (suc (suc (suc (suc (suc (suc zero))))))) h =
    decimal {c = "7"} (omega arith) refl refl
hex_digit-IsHex (suc (suc (suc (suc (suc (suc (suc (suc zero)))))))) h =
    decimal {c = "8"} (omega arith) refl refl
hex_digit-IsHex (suc (suc (suc (suc (suc (suc (suc (suc (suc zero))))))))) h =
    decimal {c = "9"} (omega arith) refl refl
hex_digit-IsHex (suc (suc (suc (suc (suc (suc (suc (suc (suc (suc zero)))))))))) h =
    letter {c = "a"} (omega arith) (omega arith) refl refl
hex_digit-IsHex (suc (suc (suc (suc (suc (suc (suc (suc (suc (suc (suc zero))))))))))) h =
    letter {c = "b"} (omega arith) (omega arith) refl refl
hex_digit-IsHex (suc (suc (suc (suc (suc (suc (suc (suc (suc (suc (suc (suc zero)))))))))))) h =
    letter {c = "c"} (omega arith) (omega arith) refl refl
hex_digit-IsHex (suc (suc (suc (suc (suc (suc (suc (suc (suc (suc (suc (suc (suc zero)))))))))))))
      h =
    letter {c = "d"} (omega arith) (omega arith) refl refl
hex_digit-IsHex
      (suc (suc (suc (suc (suc (suc (suc (suc (suc (suc (suc (suc (suc (suc zero)))))))))))))) h =
    letter {c = "e"} (omega arith) (omega arith) refl refl
hex_digit-IsHex
      (suc (suc (suc (suc (suc (suc (suc (suc (suc (suc (suc (suc (suc (suc (suc zero)))))))))))))))
      h =
    letter {c = "f"} (omega arith) (omega arith) refl refl
hex_digit-IsHex
      (suc
        (suc (suc (suc (suc (suc (suc (suc (suc (suc (suc (suc (suc (suc (suc (suc d))))))))))))))))
      h =
    absurd (omega arith)

equal : (m n : ℕ) → eqb m n ≡ true → n ≡ m
equal m n e = ground arith

apart : (m n : ℕ) → eqb m n ≡ false → m ≢ n
apart m n e = ground arith

below : (m n : ℕ) → ltb m n ≡ true → m < n
below m n e = ground arith

-- One round of the loop: an escape, or the character itself.
data Written (c : Char) (t : String) : Type 0 where
  as_is : 0x20 ≤ code c → code c ≢ b'"' → code c ≢ b'\\' → t ≡ String.◌∷◌ c String.[] → Written c t
  as_escape : IsEscape (code c) t → Written c t

IsEscape-same : {m n : ℕ} {t : String} → IsEscape n t → eqb m n ≡ true → IsEscape m t
IsEscape-same {m = m} {n = n} {t = t} h e = subst (λ k. IsEscape k t) (equal m n e) h

escape-Written : (c : Char) → Written c (escape c)
unfolding escape escape_code
escape-Written c = elim (Bool-cases (eqb (code c) b'"')) [
  | inl e ↦ rw e (as_escape (IsEscape-same quote e))
  | inr no_quote ↦ rw no_quote (elim (Bool-cases (eqb (code c) b'\\')) [
    | inl e ↦ rw e (as_escape (IsEscape-same backslash e))
    | inr no_backslash ↦ rw no_backslash (elim (Bool-cases (eqb (code c) 8)) [
      | inl e ↦ rw e (as_escape (IsEscape-same backspace e))
      | inr no_backspace ↦ rw no_backspace (elim (Bool-cases (eqb (code c) 12)) [
        | inl e ↦ rw e (as_escape (IsEscape-same form_feed e))
        | inr no_form_feed ↦ rw no_form_feed (elim (Bool-cases (eqb (code c) 10)) [
          | inl e ↦ rw e (as_escape (IsEscape-same line_feed e))
          | inr no_line_feed ↦ rw no_line_feed (elim (Bool-cases (eqb (code c) 13)) [
            | inl e ↦ rw e (as_escape (IsEscape-same carriage_return e))
            | inr no_carriage_return ↦ rw no_carriage_return (elim (Bool-cases (eqb (code c) 9)) [
              | inl e ↦ rw e (as_escape (IsEscape-same tab e))
              | inr no_tab ↦ rw no_tab (elim (Bool-cases (ltb (code c) 0x20)) [
                | inl e ↦ rw e (
                    as_escape (
                      unicode (hex_digit-IsHex (code c / 16) (omega (arith, below (code c) 32 e)))
                        (hex_digit-IsHex (code c % 16) (omega arith)) (omega arith) refl))
                | inr e ↦ rw e (
                    as_is (ground arith) (apart (code c) 34 no_quote)
                      (apart (code c) 92 no_backslash) refl)
              ])
            ])
          ])
        ])
      ])
    ])
  ])
]

Quotes-Written :
    {c : Char} {e s t : String} → Written c e → Quotes s t → Quotes (String.◌∷◌ c s) (e <> t)
Quotes-Written (as_escape h) q = escaped h q refl
Quotes-Written {c = c} {s = s} {t = t} (as_is printable no_quote no_backslash shown) q =
    subst (Quotes (String.◌∷◌ c s)) (ap (λ e. e <> t) (sym shown)) (
      subst (Quotes (String.◌∷◌ c s))
        (sym (cons-append c String.[] t ∙ ap (String.◌∷◌ c) (nil-append t)))
        (plain printable no_quote no_backslash q))

write_chars-Quotes : (s out : String) → (t : String) × Quotes s t × (write_chars out s ≡ out <> t)
unfolding write_chars
write_chars-Quotes String.[] out = ("", empty, sym (append-nil out))
write_chars-Quotes (String.◌∷◌ c s) out =
    let rest = write_chars-Quotes s (out <> escape c) in
    (
      escape c <> rest.0,
      Quotes-Written (escape-Written c) rest.1,
      rest.2 ∙ append_assoc out (escape c) rest.0,
    )

-- A text is written between quotes, behind what is there.
pub write_string-Quotes :
    (s out : String)
    → (t : String) × Quotes s t × (write_string out s ≡ out <> ("\"" <> (t <> "\"")))
unfolding write_string
write_string-Quotes s out =
    let body = write_chars-Quotes s (out <> "\"") in
    (
      body.0,
      body.1,
      ap (λ t. t <> "\"") body.2
          ∙ append_assoc (out <> "\"") body.0 "\""
          ∙ append_assoc out "\"" (body.0 <> "\""),
    )
