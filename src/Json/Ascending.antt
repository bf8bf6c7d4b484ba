-- ===== src/Json/Ascending.antt =====
-- The keys of an object as `std::map` keeps them: strictly ascending, so each stands once.
use Prim.Native.Nat.{Ordering}
use Prim.Native.String.{compare}
use mathlib.Core.Path.{subst}
use forgeant.Prelude.{
  String, ◌≡◌, ◌≢◌, refl, sym, ap, true, false, Bool-cases, inl, inr, none, is_some, ◌==◌, eq_iff,
  arith,
}
use forgeant.Prelude.Order.{compare_trans, compare_total, compare_asym}
use forgeant.Json.{Json, Members, end, member, find, insert, is_before, emplace}

-- Every key of `ms` is behind `k`.
abbrev pub Behind : String → Members → Type 0
Behind k end = Unit
Behind k (member j v ms) = (compare k j ≡ Ordering.lt) × Behind k ms

abbrev pub Ascending : Members → Type 0
Ascending end = Unit
Ascending (member k v ms) = Behind k ms × Ascending ms

Behind-trans : (k j : String) (ms : Members) → compare k j ≡ Ordering.lt → Behind j ms → Behind k ms
Behind-trans k j end e h = tt
Behind-trans k j (member i v ms) e h = (compare_trans k j i e h.0, Behind-trans k j ms e h.1)

before : (k j : String) → is_before k j ≡ true → compare k j ≡ Ordering.lt
before k j e = ground arith

not_before : (k j : String) → is_before k j ≡ false → compare k j ≢ Ordering.lt
not_before k j e d = ground arith

-- The three places at which a key can stand against another one.
pub data Place (k j : String) : Type 0 where
  here : (k == j) ≡ true → k ≡ j → Place k j
  ahead : (k == j) ≡ false → is_before k j ≡ true → compare k j ≡ Ordering.lt → Place k j
  behind : (k == j) ≡ false → is_before k j ≡ false → compare j k ≡ Ordering.lt → Place k j

pub place : (k j : String) → Place k j
place k j = elim (Bool-cases (k == j)) [
  | inl e ↦ here e ((eq_iff k j).0 e)
  | inr e ↦ elim (Bool-cases (is_before k j)) [
    | inl b ↦ ahead e b (before k j b)
    | inr b ↦ behind e b (compare_total k j (λ same. differ k j e same) (not_before k j b))
  ]
]
  where
    differ : (k j : String) → (k == j) ≡ false → k ≢ j
    differ k j e same = cc (e, (eq_iff k j).1 same)

Behind-insert :
    (i k : String) (v : Json) (ms : Members)
    → compare i k ≡ Ordering.lt
    → Behind i ms
    → Behind i (insert k v ms)
unfolding insert
Behind-insert i k v end e h = (e, tt)
Behind-insert i k v (member j w ms) e h = elim (place k j) [
  | here eq _ ↦ rw eq (e, h.1)
  | ahead eq b _ ↦ rw (eq, b) (e, h)
  | behind eq b _ ↦ rw (eq, b) (h.0, Behind-insert i k v ms e h.1)
]

pub insert-Ascending :
    (k : String) (v : Json) (ms : Members) → Ascending ms → Ascending (insert k v ms)
unfolding insert
insert-Ascending k v end h = (tt, tt)
insert-Ascending k v (member j w ms) h = elim (place k j) [
  | here eq same ↦ rw eq (subst (λ i. Behind i ms) (sym same) h.0, h.1)
  | ahead eq b lt ↦ rw (eq, b) ((lt, Behind-trans k j ms lt h.0), h)
  | behind eq b lt ↦ rw (eq, b) (Behind-insert j k v ms lt h.0, insert-Ascending k v ms h.1)
]

pub emplace-Ascending :
    (k : String) (v : Json) (ms : Members) → Ascending ms → Ascending (emplace k v ms)
unfolding emplace
emplace-Ascending k v ms h = elim (Bool-cases (is_some (find k ms))) [
  | inl e ↦ rw e h
  | inr e ↦ rw e (insert-Ascending k v ms h)
]

apart : (k j : String) → k ≡ j → compare j k ≢ Ordering.lt
apart k j same e =
    let turned = subst (λ i. compare i k ≡ Ordering.lt) (sym same) e in
    compare_asym k k turned turned

-- A key that is behind all the others is found nowhere, and goes to the end.
abbrev pub Before : String → Members → Type 0
Before k end = Unit
Before k (member j v ms) = (compare j k ≡ Ordering.lt) × Before k ms

abbrev pub snoc : Members → String → Json → Members
snoc end k v = member k v end
snoc (member j w ms) k v = member j w (snoc ms k v)

find-Before : (k : String) (ms : Members) → Before k ms → find k ms ≡ none
unfolding find
find-Before k end h = refl
find-Before k (member j w ms) h = elim (place k j) [
  | here eq same ↦ absurd (apart k j same h.0)
  | ahead eq b lt ↦ rw eq (find-Before k ms h.1)
  | behind eq b lt ↦ rw eq (find-Before k ms h.1)
]

insert-Before : (k : String) (v : Json) (ms : Members) → Before k ms → insert k v ms ≡ snoc ms k v
unfolding insert
insert-Before k v end h = refl
insert-Before k v (member j w ms) h = elim (place k j) [
  | here eq same ↦ absurd (apart k j same h.0)
  | ahead eq b lt ↦ absurd (compare_asym k j lt h.0)
  | behind eq b lt ↦ rw (eq, b) (ap (member j w) (insert-Before k v ms h.1))
]

pub emplace-Before :
    (k : String) (v : Json) (ms : Members) → Before k ms → emplace k v ms ≡ snoc ms k v
unfolding emplace
emplace-Before k v ms h = rw (find-Before k ms h) (insert-Before k v ms h)
