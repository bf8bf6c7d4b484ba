-- ===== src/Http/Bytes.antt =====
-- What src/http/curl_client.cpp uses of `std::string_view`, on lists of bytes. `none` is `npos`.
use forgeant.Prelude.{
  ℕ, suc, ◌+◌, Bool, true, false, ◌||◌, Option, none, some, List, [], ◌∷◌, eqb, ltb, length, take,
  drop, if◌then◌else◌,
}
use forgeant.Outcome.{Outcome, ok, throw, out_of_range}

abbrev pub Bytes : Type 0
Bytes = List ℕ

-- An index behind the first bytes.
abbrev pub shift : ℕ → Option ℕ → Option ℕ
shift n none = none
shift n (some k) = some (n + k)

abbrev pub next : Option ℕ → Option ℕ
next none = none
next (some k) = some (suc k)

-- `find(c)`
unfoldable pub find : ℕ → Bytes → Option ℕ
find c [] = none
find c (b ∷ bs) = let rest = find c bs in if eqb b c then some 0 else next rest

unfoldable pub first_not_of : ℕ → Bytes → Option ℕ
first_not_of c [] = none
first_not_of c (b ∷ bs) = let rest = first_not_of c bs in if eqb b c then next rest else some 0

-- `find_first_not_of(c, start)`
abbrev pub find_first_not_of : ℕ → ℕ → Bytes → Option ℕ
find_first_not_of c start bs = shift start (first_not_of c (drop start bs))

-- '\r' or '\n'
abbrev pub is_line_end : ℕ → Bool
is_line_end b = eqb b 13 || eqb b 10

abbrev pub later : Bool → Option ℕ → Option ℕ
later skipped (some k) = some (suc k)
later true none = none
later false none = some 0

-- `find_last_not_of("\r\n")`
unfoldable pub find_last_not_of : Bytes → Option ℕ
find_last_not_of [] = none
find_last_not_of (b ∷ bs) = later (is_line_end b) (find_last_not_of bs)

-- `substr(start, count)`
unfoldable pub substr : ℕ → ℕ → Bytes → Outcome Bytes
substr start count bs =
    if ltb (length bs) start then throw (out_of_range "substr") else ok (take count (drop start bs))
