-- ===== src/Tests/TextTests.antt =====
-- Texts of `dump`, and what `parse` gives for them.
use forgeant.Prelude.{String, ◌≡◌, refl, true, arith}
use forgeant.Prelude.Int.{pos}
use forgeant.Double.{Double}
use forgeant.Outcome.{ok}
use forgeant.Platform.{Platform, Generic, GenericMembers, ReadResult}
use forgeant.Json.{Json, null, boolean, integer, string, array, object, nil, cons, member, end}
use forgeant.Json.Text.{dump, parse}
use forgeant.Json.Text.Sorted.{IsSorted, parse-IsSorted}
use forgeant.Json.Text.Grammar.{Spells}
use forgeant.Json.Text.Writing.{generic_of, IsFinite, dump-Spells}
use forgeant.Json.Text.RoundTrip.{parse-dump}
use forgeant.Tests.Data.{platform}

abbrev sample : Json
sample = object (
    member "count" (integer (pos 12)) (
      member "items" (array (cons (boolean true) (cons null nil)))
        (member "text" (string "a\"b\n") end)))

abbrev sample_text : String
sample_text = "{\"count\":12,\"items\":[true,null],\"text\":\"a\\\"b\\n\"}"

dump-sample : (p : Platform) → dump p sample ≡ sample_text
unfolding dump
dump-sample p = refl

-- A reader that gives the value of `sample` for its text, and for any other.
abbrev reader : Platform
reader = record platform { read_json = λ s. ReadResult.value (generic_of sample) }

-- The numerals that `double_chars` writes.
abbrev Shown : Double → String → Type 0
Shown d t = t ≡ reader.double_chars d

sample-IsFinite : IsFinite sample
sample-IsFinite = (tt, ((tt, (tt, tt)), (tt, tt)))

dump-Spells_example : Spells Shown (generic_of sample) (dump reader sample)
dump-Spells_example = dump-Spells reader Shown (λ d h. refl) sample sample-IsFinite

sample-IsSorted : IsSorted sample
sample-IsSorted = (((refl, (refl, tt)), ((refl, tt), (tt, tt))), (tt, ((tt, (tt, tt)), (tt, tt))))

parse-dump_example : parse reader (dump reader sample) ≡ ok sample
parse-dump_example =
    parse-dump reader Shown (λ d h. refl) sample sample-IsSorted
      ((omega arith, omega arith), ((tt, (tt, tt)), (tt, tt))) sample-IsFinite (λ t spells. refl)

-- A reader that gives the members of an object in the order of the text, with a key twice.
abbrev unordered : Platform
unordered = record platform {
  read_json = λ s. ReadResult.value (
      Generic.object (
        GenericMembers.member "b" Generic.null (
          GenericMembers.member "a" (Generic.boolean true)
            (GenericMembers.member "b" (Generic.boolean true) GenericMembers.end))));
}

abbrev ordered : Json
ordered = object (member "a" (boolean true) (member "b" null end))

parse-unordered : parse unordered "{\"b\":null,\"a\":true,\"b\":true}" ≡ ok ordered
unfolding parse
parse-unordered = refl

parse-IsSorted_run : IsSorted ordered
parse-IsSorted_run =
    parse-IsSorted unordered "{\"b\":null,\"a\":true,\"b\":true}" ordered parse-unordered
