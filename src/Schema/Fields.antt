-- ===== src/Schema/Fields.antt =====
-- Fields of an object: what a schema asks of them, and how `from_json` reads them.
use forgeant.Prelude.{String, ◌≡◌, refl, true, Option, none, some, is_some}
use forgeant.Prelude.Int.{ℤ, wrap_int}
use forgeant.Outcome.{Outcome, ok, throw}
use forgeant.Action.{Action, lift, continue, ◌>>=◌}
use forgeant.Json.{
  Json, null, boolean, integer, number, string, array, object, Members, member, end, find, at,
  get_string, get_int, or_throw,
}
use forgeant.Schema.Conforms.{Accepts, Optional}

-- The schema of a field of the given type, with a description.
abbrev pub described_json : String → String → Json
described_json type text =
    object (member "description" (string text) (member "type" (string type) end))

pub string_field :
    (text : String) (o : Option Json)
    → Optional (λ v. Accepts (described_json "string" text) v) o
    → is_some o ≡ true
    → (s : String) × (o ≡ some (string s))
string_field text none h found = cc
string_field text (some (string s)) h found = (s, refl)
string_field text (some null) h found = cc
string_field text (some (boolean b)) h found = cc
string_field text (some (integer n)) h found = cc
string_field text (some (number d)) h found = cc
string_field text (some (array xs)) h found = cc
string_field text (some (object ms)) h found = cc

pub integer_field :
    (text : String) (o : Option Json)
    → Optional (λ v. Accepts (described_json "integer" text) v) o
    → is_some o ≡ true
    → (n : ℤ) × (o ≡ some (integer n))
integer_field text none h found = cc
integer_field text (some (integer n)) h found = (n, refl)
integer_field text (some null) h found = absurd h.1.0
integer_field text (some (boolean b)) h found = absurd h.1.0
integer_field text (some (number d)) h found = absurd h.1.0
integer_field text (some (string s)) h found = absurd h.1.0
integer_field text (some (array xs)) h found = absurd h.1.0
integer_field text (some (object ms)) h found = absurd h.1.0

-- `j.at(key).get<std::string>()` and `j.at(key).get<int>()`, and then the rest of a reader.
abbrev pub read_string : {S : Type 0} → String → Json → (String → Action S Unit) → Action S Unit
read_string key j k = do v ← lift (at key j); s ← lift (get_string v); k s

abbrev pub read_int : {S : Type 0} → String → Json → (ℤ → Action S Unit) → Action S Unit
read_int key j k = do v ← lift (at key j); n ← lift (get_int v); k n

abbrev pub IsOk : {S : Type 0} → Outcome (Unit {0}) × S → Type 0
IsOk (ok _, _) = Unit
IsOk (throw _, _) = ⊥

pub read_string-IsOk :
    {S : Type 0} (key : String) (ms : Members) (k : String → Action S Unit) (s : S)
    → IsOk (read_string key (object ms) k s)
    → (t : String) × (find key ms ≡ some (string t)) × IsOk (k t s)
unfolding at
read_string-IsOk {S} key ms k s = go (find key ms)
  where
    go :
        (o : Option Json)
        → IsOk (continue (or_throw key o) (λ v. λ s'. continue (get_string v) k s') s)
        → (t : String) × (o ≡ some (string t)) × IsOk (k t s)
    go none h = absurd h
    go (some (string t)) h = (t, refl, h)
    go (some null) h = absurd h
    go (some (boolean b)) h = absurd h
    go (some (integer n)) h = absurd h
    go (some (number d)) h = absurd h
    go (some (array xs)) h = absurd h
    go (some (object ms)) h = absurd h

pub read_int-IsOk :
    {S : Type 0} (key : String) (ms : Members) (k : ℤ → Action S Unit) (s : S)
    → IsOk (read_int key (object ms) k s)
    → (n : ℤ) × (find key ms ≡ some (integer n)) × IsOk (k (wrap_int n) s)
unfolding at
read_int-IsOk {S} key ms k s = go (find key ms)
  where
    go :
        (o : Option Json)
        → IsOk (continue (or_throw key o) (λ v. λ s'. continue (get_int v) k s') s)
        → (n : ℤ) × (o ≡ some (integer n)) × IsOk (k (wrap_int n) s)
    go none h = absurd h
    go (some (integer n)) h = (n, refl, h)
    go (some null) h = absurd h
    go (some (boolean b)) h = absurd h
    go (some (string t)) h = absurd h
    go (some (number d)) h = absurd h
    go (some (array xs)) h = absurd h
    go (some (object ms)) h = absurd h
