-- ===== src/Types/Role.antt =====
-- include/forgeant/types/role.hpp and src/types/role.cpp
use forgeant.Prelude.{◌<>◌, ◌≡◌, refl, ◌==◌, if◌then◌else◌}
use forgeant.Outcome.{Outcome, ok, throw, invalid_argument, ◌>>=◌}
use forgeant.Action.{Action}
use forgeant.Json.{Json, string, get_string}
use forgeant.Json.Update.{set}

pub data Role : Type 0 where
  system user assistant tool : Role

unfoldable pub to_json : Role → Action Json Unit
to_json system = set (string "system")
to_json user = set (string "user")
to_json assistant = set (string "assistant")
to_json tool = set (string "tool")

unfoldable pub from_json : Json → Outcome Role
from_json j = do
  s ← get_string j
  if s == "system"
      then ok system
      else if s == "user"
      then ok user
      else if s == "assistant"
      then ok assistant
      else if s == "tool"
      then ok tool
      else throw (invalid_argument ("invalid role: " <> s))

-- A role is read back from the text that it is written as.
pub from_json-to_json : (r : Role) (j : Json) → from_json (to_json r j).1 ≡ ok r
unfolding from_json to_json
from_json-to_json system j = refl
from_json-to_json user j = refl
from_json-to_json assistant j = refl
from_json-to_json tool j = refl
