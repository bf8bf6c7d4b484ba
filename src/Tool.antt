-- ===== src/Tool.antt =====
-- include/forgeant/tool/tool.hpp and tool_view.hpp. A tool's handler may read and write the outside
-- world, of type `W`, and may throw.
pub mod Registry
use forgeant.Prelude.{String}
use forgeant.Outcome.{Outcome}
use forgeant.Action.{Action, lift, ◌>>=◌}
use forgeant.Json.{Json}

pub record ToolView : Type 0 where
  pub name : String
  pub description : String
  pub parameters : Json

pub record Tool (W : Type 0) : Type 0 where
  pub name : String
  pub description : String
  pub parameters : Json
  pub execute : Json → Action W Json

-- `make_tool<Params>`: `schema` is `ParamSchema<Params>::schema()`, `get` is `get<Params>()`, and
-- `func` is the handler with its result converted to `Json`.
unfoldable pub make_tool :
    {W Params : Type 0}
    → Json
    → (Json → Outcome Params)
    → String
    → String
    → (Params → Action W Json)
    → Tool W
make_tool schema get name description func = record {
  name = name;
  description = description;
  parameters = schema;
  execute = λ args. (do params ← lift (get args); func params);
}

abbrev pub view : {W : Type 0} → Tool W → ToolView
view tool = record {
  name = tool.name;
  description = tool.description;
  parameters = tool.parameters;
}
