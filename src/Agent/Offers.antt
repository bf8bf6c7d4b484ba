-- ===== src/Agent/Offers.antt =====
-- `add_tool`: what an agent offers to the model, and what it runs, once its tools are added.
use mathlib.Core.List.{Perm}
use mathlib.Core.Path.{subst}
use forgeant.Prelude.{String, ◌≡◌, refl, sym, ap, ◌∙◌, Option, List, [], ◌∷◌, map}
use forgeant.Platform.{Platform}
use forgeant.Json.{Json}
use forgeant.Tool.{Tool, view}
use forgeant.Tool.Registry
use forgeant.Tool.Registry.{ToolRegistry}
use forgeant.Tool.Registry.Series.{
  add_all, firsts, first_named, call_tool, execute-add_all, tools-add_all,
}
use forgeant.Provider.{LlmProvider}
use forgeant.Agent.{Agent, AgentOptions, add_tool, request_of}
use forgeant.Agent.Create.{make_agent}

module _ {W : Type 0} where
  abbrev pub with_tools : List (Tool W) → Agent W → Agent W
  with_tools [] agent = agent
  with_tools (tool ∷ rest) agent = with_tools rest (add_tool tool agent)

  -- Only the registry changes.
  pub with_tools-add_all :
      (rest : List (Tool W)) (agent : Agent W)
      → with_tools rest agent ≡ record agent { registry = add_all rest agent.registry }
  unfolding add_tool
  with_tools-add_all [] agent = refl
  with_tools-add_all (tool ∷ rest) agent = with_tools-add_all rest (add_tool tool agent)

  -- Whatever order the buckets have, an agent whose tools were added one after another offers the
  -- first tool of each name, once, in each request, and a call of a name runs the first tool that was
  -- added under it, or throws that it is unknown.
  pub request_of-firsts :
      (p : Platform) (provider : LlmProvider W) (options : AgentOptions) (tools : List (Tool W))
      (schema : Option Json) (name : String) (args : Json) (w : W)
      → ((names : List String) → Perm (p.bucket_order names) names)
      → let agent = with_tools tools (make_agent provider options) in
        Perm (request_of p agent schema).tools (map view (firsts tools))
        × (Registry.execute name args agent.registry w
            ≡ call_tool name (first_named name tools) args w)
  request_of-firsts p provider options tools schema name args w order =
      let same =
        ap (λ (agent : Agent W). agent.registry)
          (with_tools-add_all tools (make_agent provider options)) in
      (
        subst (λ registry. Perm (Registry.tools p registry) (map view (firsts tools))) (sym same)
            (tools-add_all p tools order),
        ap (λ registry. Registry.execute name args registry w) same
            ∙ execute-add_all name args tools w,
      )
