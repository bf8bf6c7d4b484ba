-- ===== src/Json/Text/Writing.antt =====
-- `dump` against the grammar: the text that it writes, and the value that the text stands for.
use text.Mathlib.TextLemmas.{append_assoc, append-nil, nil-append}
use mathlib.Core.Path.{subst}
use forgeant.Prelude.{String, ◌<>◌, ◌≡◌, refl, sym, ◌∙◌, ap, true, false}
use forgeant.Prelude.Decimal.{to_string}
use forgeant.Prelude.Decimal.Laws.{to_string-IsInteger}
use forgeant.Double
use forgeant.Double.{Double, is_finite}
use forgeant.Platform.{Platform, Generic, GenericItems, GenericMembers}
use forgeant.Json.{
  Json, null, boolean, integer, number, string, array, object, Items, nil, cons, Members, end,
  member,
}
use forgeant.Json.Text.{write_to, write_items, write_members, write_string, dump}
use forgeant.Json.Text.Strings.{write_string-Quotes}
use forgeant.Json.Text.Grammar.{Quotes, Spells, SpellsItems, SpellsMembers, SpellsMember}
use forgeant.Json.Text.Grammar as Grammar

-- The value that a `Json` is written as.
abbrev mutual
  pub generic_of : Json → Generic
  generic_of null = Generic.null
  generic_of (boolean b) = Generic.boolean b
  generic_of (integer n) = Generic.number (Double.of_integer n)
  generic_of (number d) = Generic.number d
  generic_of (string s) = Generic.string s
  generic_of (array xs) = Generic.array (generic_items xs)
  generic_of (object ms) = Generic.object (generic_members ms)

  pub generic_items : Items → GenericItems
  generic_items nil = GenericItems.nil
  generic_items (cons x xs) = GenericItems.cons (generic_of x) (generic_items xs)

  pub generic_members : Members → GenericMembers
  generic_members end = GenericMembers.end
  generic_members (member k v ms) = GenericMembers.member k (generic_of v) (generic_members ms)

-- Infinities and NaN have no text in the grammar.
abbrev mutual
  pub IsFinite : Json → Type 0
  IsFinite null = Unit
  IsFinite (boolean b) = Unit
  IsFinite (integer n) = Unit
  IsFinite (number d) = is_finite d ≡ true
  IsFinite (string s) = Unit
  IsFinite (array xs) = AllFinite xs
  IsFinite (object ms) = MembersFinite ms

  pub AllFinite : Items → Type 0
  AllFinite nil = Unit
  AllFinite (cons x xs) = IsFinite x × AllFinite xs

  pub MembersFinite : Members → Type 0
  MembersFinite end = Unit
  MembersFinite (member k v ms) = IsFinite v × MembersFinite ms

-- Texts that were appended one after the other.
closed : (out l t r w : String) → w ≡ (out <> l) <> t → w <> r ≡ out <> (l <> (t <> r))
closed out l t r w e =
    ap (λ x. x <> r) e ∙ append_assoc (out <> l) t r ∙ append_assoc out l (t <> r)

joined : (out t s u w : String) → u ≡ out <> t → w ≡ (u <> ",") <> s → w ≡ out <> (t <> ("," <> s))
joined out t s u w d e =
    e ∙ ap (λ x. (x <> ",") <> s) d ∙ append_assoc (out <> t) "," s ∙ append_assoc out t ("," <> s)

named :
    (out name value u w : String)
    → u ≡ out <> ("\"" <> (name <> "\""))
    → w ≡ (u <> ":") <> value
    → w ≡ out <> ("\"" <> (name <> ("\":" <> value)))
named out name value u w d e =
    e
    ∙ ap (λ x. (x <> ":") <> value) d
    ∙ append_assoc (out <> ("\"" <> (name <> "\""))) ":" value
    ∙ append_assoc out ("\"" <> (name <> "\"")) (":" <> value)
    ∙ ap (λ x. out <> x)
        (append_assoc "\"" (name <> "\"") (":" <> value)
          ∙ ap (λ x. "\"" <> x)
              (append_assoc name "\"" (":" <> value)
                ∙ ap (λ x. name <> x) (sym (append_assoc "\"" ":" value))))

module _ (p : Platform) (Numeral : Double → String → Type 0)
    (chars : (d : Double) → is_finite d ≡ true → Numeral d (p.double_chars d)) where
  -- What a value appends to `out`.
  abbrev Written : Json → String → Type 0
  Written j out = (t : String) × Spells Numeral (generic_of j) t × (write_to p j out ≡ out <> t)

  write_member-Spells :
      (k : String) (v : Json) (out : String)
      → Written v (write_string out k <> ":")
      → (t : String) × SpellsMember Numeral k (generic_of v) t
        × (write_to p v (write_string out k <> ":") ≡ out <> t)
  write_member-Spells k v out value =
      let name = write_string-Quotes k out in
      (
        "\"" <> (name.0 <> ("\":" <> value.0)),
        Grammar.entry name.1 value.1 refl,
        named out _ _ _ _ name.2 value.2,
      )

  mutual
    unfolding write_to

    write_to-Spells : (j : Json) → IsFinite j → (out : String) → Written j out
    write_to-Spells null h out = ("null", Grammar.null, refl)
    write_to-Spells (boolean true) h out = ("true", Grammar.truth, refl)
    write_to-Spells (boolean false) h out = ("false", Grammar.falsity, refl)
    write_to-Spells (integer n) h out = (to_string n, Grammar.whole (to_string-IsInteger n), refl)
    write_to-Spells (number d) h out = (p.double_chars d, Grammar.numeral (chars d h), refl)
    write_to-Spells (string s) h out =
        let body = write_string-Quotes s out in
        ("\"" <> (body.0 <> "\""), Grammar.quoted body.1 refl, body.2)
    write_to-Spells (array xs) h out =
        let body = write_items-Spells xs h (out <> "[") in
        ("[" <> (body.0 <> "]"), Grammar.array body.1 refl, closed out _ _ _ _ body.2)
    write_to-Spells (object ms) h out =
        let body = write_members-Spells ms h (out <> "{") in
        ("{" <> (body.0 <> "}"), Grammar.object body.1 refl, closed out _ _ _ _ body.2)

    write_items-Spells :
        (xs : Items)
        → AllFinite xs
        → (out : String)
        → (t : String) × SpellsItems Numeral (generic_items xs) t
          × (write_items p true xs out ≡ out <> t)
    write_items-Spells nil h out = ("", Grammar.no_item, sym (append-nil out))
    write_items-Spells (cons x nil) h out =
        let first = write_to-Spells x h.0 out in (first.0, Grammar.last_item first.1, first.2)
    write_items-Spells (cons x (cons y ys)) h out =
        let first = write_to-Spells x h.0 out in
        let rest = write_items-Spells (cons y ys) h.1 (write_to p x out <> ",") in
        (
          first.0 <> ("," <> rest.0),
          Grammar.next_item first.1 rest.1 refl,
          joined out _ _ _ _ first.2 rest.2,
        )

    write_members-Spells :
        (ms : Members)
        → MembersFinite ms
        → (out : String)
        → (t : String) × SpellsMembers Numeral (generic_members ms) t
          × (write_members p true ms out ≡ out <> t)
    write_members-Spells end h out = ("", Grammar.no_member, sym (append-nil out))
    write_members-Spells (member k v end) h out =
        let first =
          write_member-Spells k v out (write_to-Spells v h.0 (write_string out k <> ":")) in
        (first.0, Grammar.last_member first.1, first.2)
    write_members-Spells (member k v (member j w ms)) h out =
        let first =
          write_member-Spells k v out (write_to-Spells v h.0 (write_string out k <> ":")) in
        let rest =
          write_members-Spells (member j w ms) h.1
            (write_to p v (write_string out k <> ":") <> ",") in
        (
          first.0 <> ("," <> rest.0),
          Grammar.next_member first.1 rest.1 refl,
          joined out _ _ _ _ first.2 rest.2,
        )

  -- `dump` of a value without infinities and NaN writes a text of the grammar that stands for it.
  pub dump-Spells : (j : Json) → IsFinite j → Spells Numeral (generic_of j) (dump p j)
  unfolding dump
  dump-Spells j h =
      let written = write_to-Spells j h "" in
      subst (Spells Numeral (generic_of j)) (sym (written.2 ∙ nil-append written.0)) written.1
