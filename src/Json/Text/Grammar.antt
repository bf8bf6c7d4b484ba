-- ===== src/Json/Text/Grammar.antt =====
-- The texts of RFC 8259 without white space, and the value that each stands for. `Numeral` says which
-- double a numeral of a general form is read as; a whole numeral is read as the double of its integer.
use forgeant.Prelude.{ℕ, ◌+◌, ◌*◌, ◌<◌, ◌≤◌, Char, code, String, ◌<>◌, ◌≡◌, ◌≢◌, true, false}
use forgeant.Prelude.Int.{ℤ}
use forgeant.Prelude.Decimal.Laws.{IsInteger}
use forgeant.Double
use forgeant.Double.{Double}
use forgeant.Platform.{Generic, GenericItems, GenericMembers}

-- A hexadecimal digit.
pub data IsHex : ℕ → String → Type 0 where
  decimal :
      {d : ℕ} {c : Char} {t : String}
      → d < 10
      → code c ≡ 48 + d
      → t ≡ String.◌∷◌ c String.[]
      → IsHex d t
  letter :
      {d : ℕ} {c : Char} {t : String}
      → 10 ≤ d
      → d < 16
      → code c ≡ 87 + d
      → t ≡ String.◌∷◌ c String.[]
      → IsHex d t

-- The escape `t` of the character with the code `n`.
pub data IsEscape : ℕ → String → Type 0 where
  quote : IsEscape b'"' "\\\""
  backslash : IsEscape b'\\' "\\\\"
  slash : IsEscape b'/' "\\/"
  backspace : IsEscape 8 "\\b"
  form_feed : IsEscape 12 "\\f"
  line_feed : IsEscape 10 "\\n"
  carriage_return : IsEscape 13 "\\r"
  tab : IsEscape 9 "\\t"
  -- a code below 0x100; the others do not occur in what `dump` writes
  unicode :
      {high low n : ℕ} {s t u : String}
      → IsHex high s
      → IsHex low t
      → n ≡ high * 16 + low
      → u ≡ "\\u00" <> (s <> t)
      → IsEscape n u

-- What stands between the quotes of the text `s`.
pub data Quotes : String → String → Type 0 where
  empty : Quotes "" ""
  plain :
      {c : Char} {s t : String}
      → 0x20 ≤ code c
      → code c ≢ b'"'
      → code c ≢ b'\\'
      → Quotes s t
      → Quotes (String.◌∷◌ c s) (String.◌∷◌ c t)
  escaped :
      {c : Char} {s e t u : String}
      → IsEscape (code c) e
      → Quotes s t
      → u ≡ e <> t
      → Quotes (String.◌∷◌ c s) u

module _ (Numeral : Double → String → Type 0) where
  mutual
    -- The text `t` stands for the value.
    pub data Spells : Generic → String → Type 0 where
      null : Spells Generic.null "null"
      truth : Spells (Generic.boolean true) "true"
      falsity : Spells (Generic.boolean false) "false"
      whole : {n : ℤ} {t : String} → IsInteger n t → Spells (Generic.number (Double.of_integer n)) t
      numeral : {d : Double} {t : String} → Numeral d t → Spells (Generic.number d) t
      quoted : {s t u : String} → Quotes s t → u ≡ "\"" <> (t <> "\"") → Spells (Generic.string s) u
      array :
          {xs : GenericItems} {t u : String}
          → SpellsItems xs t
          → u ≡ "[" <> (t <> "]")
          → Spells (Generic.array xs) u
      object :
          {ms : GenericMembers} {t u : String}
          → SpellsMembers ms t
          → u ≡ "{" <> (t <> "}")
          → Spells (Generic.object ms) u

    -- Nothing, or values with commas between them.
    pub data SpellsItems : GenericItems → String → Type 0 where
      no_item : SpellsItems GenericItems.nil ""
      last_item :
          {x : Generic} {t : String}
          → Spells x t
          → SpellsItems (GenericItems.cons x GenericItems.nil) t
      next_item :
          {x y : Generic} {xs : GenericItems} {t s u : String}
          → Spells x t
          → SpellsItems (GenericItems.cons y xs) s
          → u ≡ t <> ("," <> s)
          → SpellsItems (GenericItems.cons x (GenericItems.cons y xs)) u

    pub data SpellsMembers : GenericMembers → String → Type 0 where
      no_member : SpellsMembers GenericMembers.end ""
      last_member :
          {k : String} {x : Generic} {s : String}
          → SpellsMember k x s
          → SpellsMembers (GenericMembers.member k x GenericMembers.end) s
      next_member :
          {k j : String} {x y : Generic} {ms : GenericMembers} {t s u : String}
          → SpellsMember k x t
          → SpellsMembers (GenericMembers.member j y ms) s
          → u ≡ t <> ("," <> s)
          → SpellsMembers (GenericMembers.member k x (GenericMembers.member j y ms)) u

    -- A quoted key, a colon and a value.
    pub data SpellsMember : String → Generic → String → Type 0 where
      entry :
          {k : String} {x : Generic} {s t u : String}
          → Quotes k s
          → Spells x t
          → u ≡ "\"" <> (s <> ("\":" <> t))
          → SpellsMember k x u
