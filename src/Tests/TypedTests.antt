-- ===== src/Tests/TypedTests.antt =====
-- Typed runs with the scripted provider.
use forgeant.Agent.{no_overrides}
use forgeant.Prelude.{◌≡◌, refl}
use forgeant.Prelude.Int.{pos}
use forgeant.Json.{empty_object, get_string}
use forgeant.Agent.Typed.{execute_typed}
use forgeant.Agent.Typed.Retries.{
  TypedEnds, fresh, IsReadable, execute_typed-TypedEnds, execute_typed-IsReadable,
}
use forgeant.Prelude.{◌≤◌, ◌+◌, ◌*◌, arith}
use forgeant.Prelude.Int.{pos_part}
use forgeant.Tool.Registry
use forgeant.Agent.{iteration_cap}
use forgeant.Agent.Metering.{ToolsKeep}
use forgeant.Agent.Typed.Cost.{execute_typed-calls}
use forgeant.Structured.{structured, attempt_count}
use forgeant.Structured.Exchanges.{StructuredEnds, at_start, structured-StructuredEnds}
use forgeant.Tests.Data.{provider, platform, agent, question}

-- The second attempt gives a text that can be read.
typed_run :
    let r = execute_typed platform get_string agent empty_object question no_overrides 0 in
    (r.1 ≡ 3)
unfolding execute_typed
typed_run = refl

execute_typed-TypedEnds_example :
    TypedEnds platform get_string agent no_overrides empty_object 3 0
      (fresh question 0)
      (execute_typed platform get_string agent empty_object question no_overrides 0)
execute_typed-TypedEnds_example =
    execute_typed-TypedEnds platform get_string agent empty_object question no_overrides 0

execute_typed-IsReadable_run :
    IsReadable platform get_string agent empty_object question no_overrides 0
      (execute_typed platform get_string agent empty_object question no_overrides 0).0
execute_typed-IsReadable_run =
    execute_typed-IsReadable platform get_string agent empty_object question no_overrides 0

-- The call with number 1 has no JSON in it, and the next one has.
structured_run : (structured platform get_string provider empty_object question (pos 2) 1).1 ≡ 3
unfolding structured
structured_run = refl

structured-StructuredEnds_example :
    StructuredEnds platform get_string provider empty_object
      (pos 2)
      (attempt_count (pos 2))
      0
      (at_start question 1)
      (structured platform get_string provider empty_object question (pos 2) 1)
structured-StructuredEnds_example =
    structured-StructuredEnds platform get_string provider empty_object question (pos 2) 1

-- The world counts the calls of the provider, and no tool changes it.
tools_keep : ToolsKeep agent (λ w. w)
unfolding Registry.execute
tools_keep name args w = ground arith

execute_typed-calls_example :
    (execute_typed platform get_string agent empty_object question no_overrides 0).1
    ≤ 0 + 3 * pos_part (iteration_cap platform agent no_overrides)
execute_typed-calls_example =
    execute_typed-calls platform get_string agent (λ w. w) tools_keep (λ conv request w. refl)
      no_overrides empty_object question 0
