-- ===== src/Tool/Registry.antt =====
-- include/forgeant/tool/registry.hpp and src/tool/registry.cpp
pub mod Laws
pub mod Series
use forgeant.Prelude.{
  ℕ, String, ◌<>◌, Bool, Option, none, some, List, [], ◌∷◌, ◌++◌, ◌==◌, if◌then◌else◌, is_some,
  length,
}
use forgeant.Outcome.{Outcome, ok, throw, runtime_error}
use forgeant.Action.{Action, lift, ◌>>=◌}
use forgeant.Platform.{Platform}
use forgeant.Json.{Json}
use forgeant.Tool.{Tool, ToolView, view}

-- `std::unordered_map<std::string, Tool>`, in the order of insertion.
pub record ToolRegistry (W : Type 0) : Type 0 where
  pub tools : List (String × Tool W)

abbrev pub keys : {W : Type 0} → List (String × Tool W) → List String
keys [] = []
keys ((name, _) ∷ entries) = name ∷ keys entries

module _ {W : Type 0} where
  abbrev pub empty : ToolRegistry W
  empty = record { tools = [] }

  unfoldable pub find : String → List (String × Tool W) → Option (Tool W)
  find name [] = none
  find name ((key, tool) ∷ entries) = if name == key then some tool else find name entries

  -- `emplace` keeps the tool that is registered under the name.
  unfoldable pub add : Tool W → ToolRegistry W → ToolRegistry W
  unfolding find
  add tool registry =
      if is_some (find tool.name registry.tools)
      then registry
      else record { tools = registry.tools ++ (tool.name, tool) ∷ [] }

  abbrev or_unknown : String → Option (Tool W) → Outcome (Tool W)
  or_unknown name none = throw (runtime_error ("unknown tool: " <> name))
  or_unknown name (some tool) = ok tool

  unfoldable pub get : String → ToolRegistry W → Outcome (Tool W)
  unfolding find
  get name registry = or_unknown name (find name registry.tools)

  unfoldable pub has : String → ToolRegistry W → Bool
  unfolding find
  has name registry = is_some (find name registry.tools)

  unfoldable pub execute : String → Json → ToolRegistry W → Action W Json
  unfolding get
  execute name args registry = do tool ← lift (get name registry); tool.execute args

  abbrev view_if : Option (Tool W) → List ToolView → List ToolView
  view_if none views = views
  view_if (some tool) views = view tool ∷ views

  unfoldable pub views : List (String × Tool W) → List String → List ToolView
  unfolding find
  views entries [] = []
  views entries (name ∷ names) = view_if (find name entries) (views entries names)

  -- `tools()`: one view for each key, in the order of the buckets.
  unfoldable pub tools : Platform → ToolRegistry W → List ToolView
  unfolding views
  tools p registry = views registry.tools (p.bucket_order (keys registry.tools))

  unfoldable pub size : ToolRegistry W → ℕ
  size registry = length registry.tools
