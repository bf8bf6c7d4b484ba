-- ===== src/Http/Curl/HeaderLine.antt =====
-- `header_callback` against a reading of the line that uses no index.
use mathlib.Core.Path.{subst}
use mathlib.Core.Option
use mathlib.Core.List.{append_assoc}
use forgeant.Prelude.{
  ℕ, suc, ◌+◌, ◌^◌, ◌<◌, ◌≡◌, refl, sym, ap, ◌∙◌, Option, none, some, [], ◌∷◌, ◌++◌, length, take,
  drop, drop-append, take-append, length-append, arith,
}
use forgeant.Outcome.{ok}
use forgeant.Http.Bytes.{Bytes, shift, find, find_last_not_of, find_first_not_of, substr}
use forgeant.Http.Curl.{ByteHeaders, emplace, span, add_value, add_header, header_callback}
use forgeant.Http.Curl.Scan.{
  at_colon, skip_spaces, trim_end, up_to, trim_end-up_to, last_of, find_last_not_of-append, Below,
  find_last_not_of-Below, lead, skip_spaces-append, length-lead, at_rest, first_not_of-lead,
  find_last_not_of-lead, find-at_colon, Splits, at_colon-Splits,
}

abbrev pub parse_value : Bytes → Bytes → ByteHeaders → ByteHeaders
parse_value key [] headers = headers
parse_value key (b ∷ bs) headers = emplace key (trim_end (b ∷ bs)) headers

abbrev pub parse_line : Option (Bytes × Bytes) → ByteHeaders → ByteHeaders
parse_line none headers = headers
parse_line (some (key, rest)) headers = parse_value key (skip_spaces rest) headers

-- The value between two indices: `last` is what `find_last_not_of` gives on the value.
span-last : (n k : ℕ) → n + k < 2 ^ 64 → suc k < 2 ^ 64 → span (n + k) n ≡ suc k
span-last n k h h' = ground arith

span-empty : (n : ℕ) → suc n < 2 ^ 64 → span n (suc n) ≡ 0
span-empty n h = ground arith

substr-append :
    (xs ys : Bytes) (count : ℕ) → substr (length xs) count (xs ++ ys) ≡ ok (take count ys)
unfolding substr
substr-append xs ys count = rw (drop-append xs ys) (ground (arith, length-append xs ys))

-- The value behind a prefix whose last byte is no line end.
add_value-append :
    (key pre v : Bytes) (n : ℕ) (headers : ByteHeaders)
    → length pre ≡ suc n
    → length (pre ++ v) < 2 ^ 64
    → add_value
        (pre ++ v)
        key
        (at_rest (suc n) v)
        (last_of (suc n) (some n) (find_last_not_of v))
        headers
      ≡ (ok tt, parse_value key v headers)
add_value-append key pre [] n headers size bound = refl
add_value-append key pre (b ∷ bs) n headers size bound =
    rw (trim_end-up_to (b ∷ bs)) (go (find_last_not_of (b ∷ bs)) (find_last_not_of-Below (b ∷ bs)))
  where
    v : Bytes
    v = b ∷ bs

    cut : (count : ℕ) → substr (suc n) count (pre ++ v) ≡ ok (take count v)
    cut count =
        subst (λ k. substr k count (pre ++ v) ≡ ok (take count v)) size (substr-append pre v count)

    go :
        (o : Option ℕ)
        → Below (length v) o
        → add_value (pre ++ v) key (some (suc n)) (last_of (suc n) (some n) o) headers
          ≡ (ok tt, emplace key (up_to o v) headers)
    go none h = rw (span-empty n (omega (arith, length-append pre v))) (rw (cut 0))
    go (some k) h =
        rw
          (span-last (suc n) k (omega (arith, length-append pre v))
            (omega (arith, length-append pre v)))
          (rw (cut (suc k)))

drop-key : (key rest : Bytes) → drop (length key + 1) (key ++ 58 ∷ rest) ≡ rest
drop-key key rest =
    subst (λ n. drop n (key ++ 58 ∷ rest) ≡ rest) {x = suc (length key)} (omega arith) (go key)
  where
    go : (key : Bytes) → drop (suc (length key)) (key ++ 58 ∷ rest) ≡ rest
    go [] = refl
    go (_ ∷ key) = go key

first-index :
    (key rest : Bytes)
    → find_first_not_of 32 (length key + 1) (key ++ 58 ∷ rest)
      ≡ at_rest (suc (length key + lead rest)) (skip_spaces rest)
first-index key rest = rw (drop-key key rest) (rw (first_not_of-lead rest) (go (skip_spaces rest)))
  where
    go :
        (v : Bytes)
        → shift (length key + 1) (at_rest (lead rest) v) ≡ at_rest (suc (length key + lead rest)) v
    go [] = refl
    go (_ ∷ _) = ap some (omega arith)

-- The key, the colon and the spaces.
abbrev prefix : Bytes → Bytes → Bytes
prefix key rest = key ++ 58 ∷ take (lead rest) rest

prefix-append : (key rest : Bytes) → key ++ 58 ∷ rest ≡ prefix key rest ++ skip_spaces rest
prefix-append key rest = ap (λ r. key ++ 58 ∷ r) (skip_spaces-append rest) ∙ rw append_assoc

length-prefix : (key rest : Bytes) → length (prefix key rest) ≡ suc (length key + lead rest)
length-prefix key rest =
    omega (arith, length-append key (58 ∷ take (lead rest) rest), length-lead rest)

last-prefix :
    (key rest : Bytes) → find_last_not_of (prefix key rest) ≡ some (length key + lead rest)
last-prefix key rest =
    find_last_not_of-append key (58 ∷ take (lead rest) rest)
    ∙ rw (find_last_not_of-lead 58 rest refl)

last-index :
    (key rest : Bytes)
    → find_last_not_of (prefix key rest ++ skip_spaces rest)
      ≡ last_of
          (suc (length key + lead rest))
          (some (length key + lead rest))
          (find_last_not_of (skip_spaces rest))
last-index key rest =
    find_last_not_of-append (prefix key rest) (skip_spaces rest)
    ∙ rw (length-prefix key rest, last-prefix key rest)

add_value-line :
    (key rest : Bytes) (headers : ByteHeaders)
    → length (key ++ 58 ∷ rest) < 2 ^ 64
    → add_value
        (key ++ 58 ∷ rest)
        key
        (find_first_not_of 32 (length key + 1) (key ++ 58 ∷ rest))
        (find_last_not_of (key ++ 58 ∷ rest))
        headers
      ≡ (ok tt, parse_value key (skip_spaces rest) headers)
add_value-line key rest headers bound =
    let n = length key + lead rest in
    let v = skip_spaces rest in
    rw (first-index key rest) (
      subst
        (λ line.
          add_value line key (at_rest (suc n) v) (find_last_not_of line) headers
          ≡ (ok tt, parse_value key v headers))
        (sym (prefix-append key rest))
        (rw (last-index key rest) (
          add_value-append key (prefix key rest) v n headers (length-prefix key rest)
            (subst (λ line. length line < 2 ^ 64) (prefix-append key rest) bound))))

substr-key : (key ys : Bytes) → substr 0 (length key) (key ++ ys) ≡ ok key
unfolding substr
substr-key key ys = rw (take-append key ys) (ground arith)

add_header-line :
    (key rest : Bytes) (headers : ByteHeaders)
    → length (key ++ 58 ∷ rest) < 2 ^ 64
    → add_header (key ++ 58 ∷ rest) (some (length key)) headers
      ≡ (ok tt, parse_value key (skip_spaces rest) headers)
add_header-line key rest headers bound =
    rw (substr-key key (58 ∷ rest)) (add_value-line key rest headers bound)

add_header-parse_line :
    (line : Bytes) (headers : ByteHeaders)
    → length line < 2 ^ 64
    → add_header line (find 58 line) headers ≡ (ok tt, parse_line (at_colon line) headers)
add_header-parse_line line headers bound =
    rw (find-at_colon line) (go (at_colon line) (at_colon-Splits line))
  where
    go :
        (o : Option (Bytes × Bytes))
        → Splits line o
        → add_header line (Option.map (λ (p : Bytes × Bytes). length p.0) o) headers
          ≡ (ok tt, parse_line o headers)
    go none h = refl
    go (some (key, rest)) h =
        subst
          (λ l.
            add_header l (some (length key)) headers
            ≡ (ok tt, parse_value key (skip_spaces rest) headers))
          (sym h) (add_header-line key rest headers (subst (λ l. length l < 2 ^ 64) h bound))

-- Of a line of less than 2^64 bytes, `header_callback` takes the whole buffer and throws nothing, also
-- where the count of the value's bytes wraps around to zero, as it does for a value of line ends alone.
-- A line with a colon whose rest is more than spaces adds, unless the key is there, what stands before
-- the first colon with what stands behind it, less the spaces at the start and the line ends at the
-- end. Any other line adds nothing.
pub header_callback-parse_line :
    (line : Bytes) (headers : ByteHeaders)
    → length line < 2 ^ 64
    → header_callback line headers ≡ (ok (length line), parse_line (at_colon line) headers)
unfolding header_callback
header_callback-parse_line line headers bound = rw (add_header-parse_line line headers bound)
