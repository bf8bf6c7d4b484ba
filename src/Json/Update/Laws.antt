-- ===== src/Json/Update/Laws.antt =====
-- What the loops that build an array, or an array under a key, leave behind.
use mathlib.Core.List.{append-nil, append_assoc}
use forgeant.Prelude.{String, ◌≡◌, ◌∙◌, List, [], ◌∷◌, ◌++◌, map, eq_refl}
use forgeant.Outcome.{ok}
use forgeant.Action.{Action}
use forgeant.Json.{Json, array, object, items, Members, insert}
use forgeant.Json.Lookup.{find-insert, insert-insert, append_item-items}
use forgeant.Json.Update.{on_key, push_back, for_each}

pub push_back-array :
    (ys : List Json) (v : Json)
    → push_back v (array (items ys)) ≡ (ok tt, array (items (ys ++ v ∷ [])))
unfolding push_back
push_back-array ys v = rw append_item-items

-- Where the key is there, the action is given its value, and the value that it leaves is stored.
pub on_key-insert :
    (key : String) (act : Action Json Unit) (v w : Json) (ms : Members)
    → act v ≡ (ok tt, w)
    → on_key key act (object (insert key v ms)) ≡ (ok tt, object (insert key w ms))
unfolding on_key
on_key-insert key act v w ms h = simp (find-insert, eq_refl, h, insert-insert)

module _ {A : Type 0} (f : A → Json) where
  pub for_each-push_back :
      (xs : List A) (ys : List Json)
      → for_each xs (λ x. push_back (f x)) (array (items ys))
        ≡ (ok tt, array (items (ys ++ map f xs)))
  unfolding for_each
  for_each-push_back [] ys = rw append-nil
  for_each-push_back (x ∷ xs) ys =
      rw (push_back-array ys (f x)) (for_each-push_back xs (ys ++ f x ∷ []) ∙ rw append_assoc)

  pub for_each-on_key :
      (key : String) (xs : List A) (ys : List Json) (ms : Members)
      → for_each xs (λ x. on_key key (push_back (f x))) (object (insert key (array (items ys)) ms))
        ≡ (ok tt, object (insert key (array (items (ys ++ map f xs))) ms))
  unfolding for_each
  for_each-on_key key [] ys ms = rw append-nil
  for_each-on_key key (x ∷ xs) ys ms =
      rw (on_key-insert key (push_back (f x)) _ _ ms (push_back-array ys (f x)))
        (for_each-on_key key xs (ys ++ f x ∷ []) ms ∙ rw append_assoc)
