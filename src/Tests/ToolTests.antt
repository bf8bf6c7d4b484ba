-- ===== src/Tests/ToolTests.antt =====
-- The registry and the dispatch of tool calls.
use mathlib.Core.List.{Perm, map}
use mathlib.Core.List.Perm
use forgeant.Prelude.{ℕ, none, List, ◌≡◌, refl, true, false, [], ◌∷◌, ◌==◌, if◌then◌else◌, All}
use forgeant.Outcome.{ok, throw, runtime_error}
use forgeant.Types.Content.{tool_result_block}
use forgeant.Tool.Registry
use forgeant.Tool.{Tool, view}
use forgeant.Tool.Registry.{add, get, has}
use forgeant.Tool.Registry.Series.{firsts, first_named, call_tool}
use forgeant.Json.{empty_object}
use forgeant.Tool.Registry.Laws.{get-add}
use forgeant.Agent.{dispatch_tools, default_options, request_of}
use forgeant.Agent.Create.{make_agent}
use forgeant.Agent.Offers.{with_tools, request_of-firsts}
use forgeant.Agent.Dispatch.{IsResult, result_ids, dispatch_tools-ids}
use forgeant.Tests.Data.{platform, provider, registry, echo, failing, call_message}

dispatch_run : dispatch_tools platform registry call_message.content 5 ≡ (
  tool_result_block (record { tool_use_id = "c1"; content = "\"done\""; is_error = false })
      ∷ tool_result_block (record { tool_use_id = "c2"; content = "broken tool"; is_error = true })
      ∷ [],
  5,
)
unfolding dispatch_tools
dispatch_run = refl

dispatch_tools-ids_example :
    All IsResult (dispatch_tools platform registry call_message.content 5).0
    × (result_ids (dispatch_tools platform registry call_message.content 5).0 ≡ "c1" ∷ "c2" ∷ [])
dispatch_tools-ids_example = dispatch_tools-ids platform registry call_message.content 5

get-add_run : get "echo" (add failing registry) ≡ (
    if has "echo" registry
    then get "echo" registry
    else if "echo" == failing.name
    then ok failing
    else throw (runtime_error "unknown tool: echo"))
get-add_run = get-add "echo" failing registry

-- Another tool under the name of `echo`.
abbrev late_echo : Tool ℕ
late_echo = record echo { description = "comes too late" }

abbrev three_tools : List (Tool ℕ)
three_tools = echo ∷ failing ∷ late_echo ∷ []

two_stay : firsts three_tools ≡ echo ∷ failing ∷ []
two_stay = refl

request_of-firsts_example :
    let agent = with_tools three_tools (make_agent provider default_options) in
    Perm (request_of platform agent none).tools (map view (firsts three_tools))
    × (Registry.execute "echo" empty_object agent.registry 5
        ≡ call_tool "echo" (first_named "echo" three_tools) empty_object 5)
request_of-firsts_example =
    request_of-firsts platform provider default_options three_tools none "echo" empty_object 5
      (λ names. Perm.refl names)
