-- ===== src/Json/Update/Preserves.antt =====
-- Actions on an object that leave the value of a key alone, one rule for each way to build an action.
use forgeant.Prelude.{String, ◌≡◌, refl, ◌∙◌, false, some, List, [], ◌∷◌, ◌==◌, arith, eq_iff}
use forgeant.Outcome.{Outcome, ok, throw}
use forgeant.Action.{Action, pure, lift, continue, ◌>>=◌}
use forgeant.Json.{Json, object, Members, find, insert}
use forgeant.Json.Lookup.{find-insert}
use forgeant.Json.Update.{on_key, for_each, set}

-- `j` is an object whose `key` has the value `v`.
pub record Holds (key : String) (v : Json) (j : Json) : Type 0 where
  pub members : Members
  pub is_object : j ≡ object members
  pub found : find key members ≡ some v

pub record Preserves {A : Type 0} (key : String) (act : Action Json A) : Type 0 where
  pub at : (v j : Json) → Holds key v j → Holds key v (act j).1

pub Preserves-pure : {A : Type 0} (key : String) (a : A) → Preserves key (pure a)
Preserves-pure key a = record { at = λ v j h. h }

pub Preserves-lift : {A : Type 0} (key : String) (r : Outcome A) → Preserves key (lift r)
Preserves-lift key r = record { at = λ v j h. h }

pub Preserves-on_key :
    (key other : String) (act : Action Json Unit)
    → (other == key) ≡ false
    → Preserves key (on_key other act)
unfolding on_key
Preserves-on_key key other act differ = record {
  at = λ v j h. rw h.is_object (record {
    members = insert other _ h.members;
    is_object = refl;
    found = find-insert other key _ h.members ∙ rw differ h.found;
  });
}

continue-Holds :
    {A B : Type 0} (key : String) (v : Json) (r : Outcome A) (f : A → Action Json B) (j : Json)
    → ((a : A) → Preserves key (f a))
    → Holds key v j
    → Holds key v (continue r f j).1
continue-Holds key v (ok a) f j keep h = (keep a).at v j h
continue-Holds key v (throw e) f j keep h = h

pub Preserves-bind :
    {A B : Type 0} (key : String) (m : Action Json A) (f : A → Action Json B)
    → Preserves key m
    → ((a : A) → Preserves key (f a))
    → Preserves key (m >>= f)
Preserves-bind key m f km kf = record {
  at = λ v j h. continue-Holds key v (m j).0 f (m j).1 kf (km.at v j h);
}

pub Preserves-for_each :
    {A : Type 0} (key : String) (xs : List A) (body : A → Action Json Unit)
    → ((x : A) → Preserves key (body x))
    → Preserves key (for_each xs body)
unfolding for_each
Preserves-for_each key [] body keep = Preserves-pure key tt
Preserves-for_each key (x ∷ xs) body keep =
    Preserves-bind key (body x) (λ _. for_each xs body) (keep x)
      (λ _. Preserves-for_each key xs body keep)

-- An assignment to an object gives the key its value.
pub on_key-Holds :
    (key : String) (v w j : Json) → Holds key w j → Holds key v (on_key key (set v) j).1
unfolding on_key
on_key-Holds key v w j h = rw h.is_object (record {
  members = insert key v h.members;
  is_object = refl;
  found = find-insert key key v h.members ∙ ground (arith, eq_iff key key);
})
