-- ===== src/Examples/Movies/Laws.antt =====
-- `from_json` of a review against the schema that the model is given.
use forgeant.Prelude.{◌≡◌, refl, some, ◌↔◌}
use forgeant.Prelude.Int.{ℤ, wrap_int}
use forgeant.Outcome.{Outcome, ok, throw}
use forgeant.Json.{
  Json, null, boolean, integer, number, string, array, object, Members, member, end, cons, nil,
  find, contains, at,
}
use forgeant.Schema.Conforms.{Accepts}
use forgeant.Schema.Fields.{
  described_json, string_field, integer_field, IsOk, read_string-IsOk, read_int-IsOk,
}
use forgeant.Examples.Movies.{MovieReview, no_review, param_movie, get_movie, from_json, result_of}

abbrev pub movie_json : Json
movie_json = object (
    member "properties"
      (object (
        member "rating" (described_json "integer" "Rating from 1 to 10") (
          member "summary" (described_json "string" "One sentence summary")
            (member "title" (described_json "string" "Movie title") end))))
      (member "required"
        (array (cons (string "title") (cons (string "rating") (cons (string "summary") nil))))
        (member "type" (string "object") end)))

movie_schema : param_movie.schema ≡ movie_json
unfolding param_movie
movie_schema = refl

-- The three fields of a review, of the types that the schema names.
pub record HasFields (ms : Members) (review : MovieReview) : Type 0 where
  pub number : ℤ
  pub title : find "title" ms ≡ some (string review.title)
  pub rating : find "rating" ms ≡ some (integer number)
  pub cut : review.rating ≡ wrap_int number
  pub summary : find "summary" ms ≡ some (string review.summary)

Accepts-HasFields :
    (ms : Members) → Accepts movie_json (object ms) → (r : MovieReview) × HasFields ms r
unfolding contains
Accepts-HasFields ms h =
    let title = string_field "Movie title" (find "title" ms) h.0.1.1.0 h.1.0.0 in
    let rating = integer_field "Rating from 1 to 10" (find "rating" ms) h.0.0 h.1.0.1.0 in
    let summary = string_field "One sentence summary" (find "summary" ms) h.0.1.0 h.1.0.1.1.0 in
    (
      record { title = title.0; rating = wrap_int rating.0; summary = summary.0 },
      record {
        number = rating.0;
        title = title.1;
        rating = rating.1;
        cut = refl;
        summary = summary.1;
      },
    )

HasFields-Accepts :
    (ms : Members) (r : MovieReview) → HasFields ms r → Accepts movie_json (object ms)
unfolding contains
HasFields-Accepts ms r h =
    rw (h.title, h.rating, h.summary)
      (
        ((tt, (tt, tt)), ((tt, (refl, tt)), ((tt, (refl, tt)), tt))),
        ((refl, (refl, (refl, tt))), (refl, tt)),
      )

pub HasFields-get_movie :
    (ms : Members) (r : MovieReview) → HasFields ms r → get_movie (object ms) ≡ ok r
unfolding get_movie at
HasFields-get_movie ms r h = rw (h.title, h.rating, h.summary) (rw (← h.cut))

pub IsOk-HasFields :
    (ms : Members) → IsOk (from_json (object ms) no_review) → (r : MovieReview) × HasFields ms r
unfolding from_json
IsOk-HasFields ms h =
    let t = read_string-IsOk "title" ms _ no_review h in
    let n = read_int-IsOk "rating" ms _ _ t.2 in
    let s = read_string-IsOk "summary" ms _ _ n.2 in
    (
      record { title = t.0; rating = wrap_int n.0; summary = s.0 },
      record { number = n.0; title = t.1; rating = n.1; cut = refl; summary = s.1 },
    )

pub result_of-IsOk :
    (p : Outcome (Unit {0}) × MovieReview) (r : MovieReview) → result_of p ≡ ok r → IsOk p
result_of-IsOk (ok _, review) r h = tt
result_of-IsOk (throw e, review) r h = cc

-- An answer is read as a review exactly if the schema that the request carries accepts it: `from_json`
-- asks for the three fields that the schema requires, of the types that it names, and nothing else.
pub get_movie_iff :
    (j : Json) → ((r : MovieReview) × (get_movie j ≡ ok r)) ↔ Accepts param_movie.schema j
unfolding get_movie at
get_movie_iff j = rw movie_schema (go j)
  where
    go : (j : Json) → ((r : MovieReview) × (get_movie j ≡ ok r)) ↔ Accepts movie_json j
    go (object ms) = (
      λ h.
          let fields =
            IsOk-HasFields ms (result_of-IsOk (from_json (object ms) no_review) h.0 h.1) in
          HasFields-Accepts ms fields.0 fields.1,
      λ h.
          let fields = Accepts-HasFields ms h in
          (fields.0, HasFields-get_movie ms fields.0 fields.1),
    )
    go null = (λ h. cc (h.1), λ h. cc (h.1.1.0))
    go (boolean b) = (λ h. cc (h.1), λ h. cc (h.1.1.0))
    go (integer n) = (λ h. cc (h.1), λ h. cc (h.1.1.0))
    go (number d) = (λ h. cc (h.1), λ h. cc (h.1.1.0))
    go (string s) = (λ h. cc (h.1), λ h. cc (h.1.1.0))
    go (array xs) = (λ h. cc (h.1), λ h. cc (h.1.1.0))
