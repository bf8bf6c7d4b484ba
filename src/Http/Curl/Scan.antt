-- ===== src/Http/Curl/Scan.antt =====
-- The searches of a header line, against readings of it that use no index.
use mathlib.Core.Option
use forgeant.Prelude.{
  ℕ, suc, ◌+◌, ◌<◌, ◌≡◌, refl, ap, ◌∙◌, Bool, true, false, Bool-cases, inl, inr, Option, none, some,
  [], ◌∷◌, ◌++◌, eqb, length, take, if◌then◌else◌, arith,
}
use forgeant.Http.Bytes.{Bytes, find, first_not_of, is_line_end, find_last_not_of, later}

abbrev pub extend : ℕ → Option (Bytes × Bytes) → Option (Bytes × Bytes)
extend b none = none
extend b (some (key, rest)) = some (b ∷ key, rest)

-- What stands before and behind the first colon.
abbrev pub at_colon : Bytes → Option (Bytes × Bytes)
at_colon [] = none
at_colon (b ∷ bs) = let rest = at_colon bs in if eqb b 58 then some ([], bs) else extend b rest

abbrev pub skip_spaces : Bytes → Bytes
skip_spaces [] = []
skip_spaces (b ∷ bs) = let rest = skip_spaces bs in if eqb b 32 then rest else b ∷ bs

abbrev pub keep_end : Bool → ℕ → Bytes → Bytes
keep_end true b [] = []
keep_end false b [] = b ∷ []
keep_end _ b (c ∷ cs) = b ∷ c ∷ cs

-- The line without the line ends at its end.
abbrev pub trim_end : Bytes → Bytes
trim_end [] = []
trim_end (b ∷ bs) = keep_end (is_line_end b) b (trim_end bs)

-- `trim_end` keeps what stands up to the byte that `find_last_not_of` finds.
abbrev pub up_to : Option ℕ → Bytes → Bytes
up_to none bs = []
up_to (some k) bs = take (suc k) bs

pub trim_end-up_to : (bs : Bytes) → trim_end bs ≡ up_to (find_last_not_of bs) bs
unfolding find_last_not_of
trim_end-up_to [] = refl
trim_end-up_to (b ∷ []) = go (is_line_end b)
  where
    go : (e : Bool) → keep_end e b [] ≡ up_to (later e none) (b ∷ [])
    go true = refl
    go false = refl
trim_end-up_to (b ∷ c ∷ cs) =
    rw (trim_end-up_to (c ∷ cs)) (go (is_line_end b) (find_last_not_of (c ∷ cs)))
  where
    go :
        (e : Bool) (o : Option ℕ) → keep_end e b (up_to o (c ∷ cs)) ≡ up_to (later e o) (b ∷ c ∷ cs)
    go true none = refl
    go false none = refl
    go true (some k) = refl
    go false (some k) = refl

-- The last byte that is no line end, in two parts.
abbrev pub last_of : ℕ → Option ℕ → Option ℕ → Option ℕ
last_of n first none = first
last_of n first (some k) = some (n + k)

pub later-some : (e : Bool) (k : ℕ) → later e (some k) ≡ some (suc k)
later-some true k = refl
later-some false k = refl

pub find_last_not_of-append :
    (xs ys : Bytes)
    → find_last_not_of (xs ++ ys) ≡ last_of (length xs) (find_last_not_of xs) (find_last_not_of ys)
unfolding find_last_not_of
find_last_not_of-append [] ys = go (find_last_not_of ys)
  where
    go : (o : Option ℕ) → o ≡ last_of 0 none o
    go none = refl
    go (some k) = ap some (omega arith)
find_last_not_of-append (x ∷ xs) ys = rw (find_last_not_of-append xs ys) (go (find_last_not_of ys))
  where
    go :
        (o : Option ℕ)
        → later (is_line_end x) (last_of (length xs) (find_last_not_of xs) o)
          ≡ last_of (suc (length xs)) (later (is_line_end x) (find_last_not_of xs)) o
    go none = refl
    go (some k) = later-some (is_line_end x) (length xs + k) ∙ ap some (omega arith)

abbrev pub Below : ℕ → Option ℕ → Type 0
Below n none = Unit
Below n (some k) = k < n

pub find_last_not_of-Below : (bs : Bytes) → Below (length bs) (find_last_not_of bs)
unfolding find_last_not_of
find_last_not_of-Below [] = tt
find_last_not_of-Below (b ∷ bs) =
    go (is_line_end b) (find_last_not_of bs) (find_last_not_of-Below bs)
  where
    go : (e : Bool) (o : Option ℕ) → Below (length bs) o → Below (suc (length bs)) (later e o)
    go true none h = tt
    go false none h = omega arith
    go true (some k) h = omega arith
    go false (some k) h = omega arith

-- The number of the spaces at the start.
abbrev pub lead : Bytes → ℕ
lead [] = 0
lead (b ∷ bs) = let rest = lead bs in if eqb b 32 then suc rest else 0

pub skip_spaces-append : (bs : Bytes) → bs ≡ take (lead bs) bs ++ skip_spaces bs
skip_spaces-append [] = refl
skip_spaces-append (b ∷ bs) = ground (arith, skip_spaces-append bs)

pub length-lead : (bs : Bytes) → length (take (lead bs) bs) ≡ lead bs
length-lead [] = refl
length-lead (b ∷ bs) = ground (arith, length-lead bs)

abbrev pub at_rest : ℕ → Bytes → Option ℕ
at_rest n [] = none
at_rest n (_ ∷ _) = some n

pub first_not_of-lead : (bs : Bytes) → first_not_of 32 bs ≡ at_rest (lead bs) (skip_spaces bs)
unfolding first_not_of
first_not_of-lead [] = refl
first_not_of-lead (b ∷ bs) = ground (arith, first_not_of-lead bs)

-- The bytes before the value end in the colon or in a space.
pub find_last_not_of-lead :
    (b : ℕ) (bs : Bytes)
    → is_line_end b ≡ false
    → find_last_not_of (b ∷ take (lead bs) bs) ≡ some (lead bs)
unfolding find_last_not_of
find_last_not_of-lead b [] h = rw h
find_last_not_of-lead b (c ∷ cs) h = ground (arith, find_last_not_of-lead c cs)

pub find-at_colon :
    (line : Bytes) → find 58 line ≡ Option.map (λ (p : Bytes × Bytes). length p.0) (at_colon line)
unfolding find
find-at_colon [] = refl
find-at_colon (b ∷ bs) = ground (arith, find-at_colon bs)

abbrev pub Splits : Bytes → Option (Bytes × Bytes) → Type 0
Splits line none = Unit
Splits line (some (key, rest)) = line ≡ key ++ 58 ∷ rest

pub at_colon-Splits : (line : Bytes) → Splits line (at_colon line)
at_colon-Splits [] = tt
at_colon-Splits (b ∷ bs) = elim (Bool-cases (eqb b 58)) [
  | inl e ↦ rw e (ap (λ c. c ∷ bs) (ground arith))
  | inr e ↦ rw e (go (at_colon bs) (at_colon-Splits bs))
]
  where
    go : (o : Option (Bytes × Bytes)) → Splits bs o → Splits (b ∷ bs) (extend b o)
    go none h = tt
    go (some (key, rest)) h = ap (λ cs. b ∷ cs) h
