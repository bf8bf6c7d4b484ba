-- ===== src/Tests/JsonTests.antt =====
-- Numbers of JSON texts, and equality.
use forgeant.Prelude.{◌*◌, ◌≡◌, ◌↔◌, true, false}
use forgeant.Prelude.Int.{pos}
use forgeant.Double.{Double, finite, infinite, one}
use forgeant.Json.{Json, integer, number, string, array, nil, cons}
use forgeant.Json.Equality.{equals}
use forgeant.Json.Equality.Decides.{equals_iff}
use forgeant.Json.Text.{from_double}
use forgeant.Json.Text.Numbers.{IsExactly, InRange, from_double_iff}

-- 2^63, which the bound of the code lets through.
abbrev beyond : Double
beyond = finite false (9223372036854775808 * one)

from_double_iff_example :
    (from_double beyond ≡ integer (pos 9223372036854775808))
    ↔ (IsExactly beyond (pos 9223372036854775808) × InRange (pos 9223372036854775808))
from_double_iff_example = from_double_iff beyond (pos 9223372036854775808)

-- Three values, and the same with the number held as a double.
abbrev exact : Json
exact = array (cons (string "x") (cons (integer (pos 3)) (cons (number (infinite true)) nil)))

abbrev inexact : Json
inexact =
    array (
      cons (string "x")
        (cons (number (finite false (3 * one))) (cons (number (infinite true)) nil)))

equals_iff_example : (equals exact inexact ≡ true) ↔ (exact ≡ inexact)
equals_iff_example = equals_iff exact inexact (tt, (tt, (tt, tt))) (tt, (tt, (tt, tt)))
