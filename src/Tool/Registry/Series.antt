-- ===== src/Tool/Registry/Series.antt =====
-- Tools that are added one after another to an empty registry.
use mathlib.Core.Path.{subst}
use mathlib.Core.List.{append-nil, append_assoc, Perm}
use forgeant.Prelude.{
  String, ◌<>◌, ◌≡◌, refl, ap, ◌∙◌, true, false, Option, none, some, List, [], ◌∷◌, ◌++◌, ◌==◌,
  eq_iff, if◌then◌else◌, is_some, arith, map, Bool-cases, inl, inr,
}
use forgeant.Outcome.{throw, runtime_error}
use forgeant.Action.{Action, lift}
use forgeant.Platform.{Platform}
use forgeant.Json.{Json}
use forgeant.Tool.{Tool, view}
use forgeant.Tool.Registry
use forgeant.Tool.Registry.{ToolRegistry, keys, find, add, get, execute, size, tools}
use forgeant.Tool.Registry.Laws.{find-append, IsKeyed, add-IsKeyed, view_of, tools-perm}

module _ {W : Type 0} where
  abbrev pub add_all : List (Tool W) → ToolRegistry W → ToolRegistry W
  add_all [] registry = registry
  add_all (tool ∷ rest) registry = add_all rest (add tool registry)

  -- The tools of other names, and the first tool of each name.
  abbrev without : String → List (Tool W) → List (Tool W)
  without name [] = []
  without name (tool ∷ rest) =
      if tool.name == name then without name rest else tool ∷ without name rest

  abbrev pub firsts : List (Tool W) → List (Tool W)
  firsts [] = []
  firsts (tool ∷ rest) = tool ∷ without tool.name (firsts rest)

  abbrev pub first_named : String → List (Tool W) → Option (Tool W)
  first_named name [] = none
  first_named name (tool ∷ rest) = if name == tool.name then some tool else first_named name rest

  abbrev entry : Tool W → String × Tool W
  entry tool = (tool.name, tool)

  -- The tools whose names are not registered yet.
  abbrev new_to : List (String × Tool W) → List (Tool W) → List (Tool W)
  new_to entries [] = []
  new_to entries (tool ∷ rest) =
      if is_some (find tool.name entries) then new_to entries rest else tool ∷ new_to entries rest

  new_to-without :
      (name : String) (entries : List (String × Tool W)) (rest : List (Tool W))
      → is_some (find name entries) ≡ true
      → new_to entries (without name rest) ≡ new_to entries rest
  new_to-without name entries [] h = refl
  new_to-without name entries (tool ∷ rest) h =
      ground (arith, eq_iff tool.name name, new_to-without name entries rest h)

  new_to-append :
      (tool : Tool W) (entries : List (String × Tool W)) (rest : List (Tool W))
      → is_some (find tool.name entries) ≡ false
      → new_to (entries ++ entry tool ∷ []) rest ≡ new_to entries (without tool.name rest)
  new_to-append tool entries [] h = refl
  new_to-append tool entries (t ∷ rest) h = ground (
    arith,
    find-append t.name entries tool.name tool,
    eq_iff t.name tool.name,
    new_to-append tool entries rest h,
  )

  add-known :
      (tool : Tool W) (registry : ToolRegistry W)
      → is_some (find tool.name registry.tools) ≡ true
      → add tool registry ≡ registry
  unfolding add
  add-known tool registry h = rw h refl

  add-fresh :
      (tool : Tool W) (registry : ToolRegistry W)
      → is_some (find tool.name registry.tools) ≡ false
      → add tool registry ≡ record { tools = registry.tools ++ entry tool ∷ [] }
  unfolding add
  add-fresh tool registry h = rw h refl

  add_all-tools :
      (rest : List (Tool W)) (registry : ToolRegistry W)
      → (add_all rest registry).tools
        ≡ registry.tools ++ map entry (new_to registry.tools (firsts rest))
  add_all-tools [] registry = rw append-nil refl
  add_all-tools (tool ∷ rest) registry =
      let old = registry.tools in
      let added = λ (r : ToolRegistry W). (add_all rest r).tools in
      elim (Bool-cases (is_some (find tool.name old))) [
        | inl known ↦ rw known (
            ap added (add-known tool registry known)
            ∙ add_all-tools rest registry
            ∙ rw (new_to-without tool.name old (firsts rest) known) refl)
        | inr fresh ↦ rw fresh (
            ap added (add-fresh tool registry fresh)
            ∙ add_all-tools rest (record { tools = old ++ entry tool ∷ [] })
            ∙ rw (new_to-append tool old (firsts rest) fresh) (append_assoc old _ _))
      ]

  new_to-empty : (rest : List (Tool W)) → new_to [] rest ≡ rest
  unfolding find
  new_to-empty [] = refl
  new_to-empty (tool ∷ rest) = ap (λ ts. tool ∷ ts) (new_to-empty rest)

  add_all-empty :
      (rest : List (Tool W)) → (add_all rest Registry.empty).tools ≡ map entry (firsts rest)
  add_all-empty rest =
      add_all-tools rest Registry.empty ∙ ap (map entry) (new_to-empty (firsts rest))

  add_all-IsKeyed :
      (rest : List (Tool W)) (registry : ToolRegistry W)
      → IsKeyed registry.tools
      → IsKeyed (add_all rest registry).tools
  add_all-IsKeyed [] registry h = h
  add_all-IsKeyed (tool ∷ rest) registry h =
      add_all-IsKeyed rest (add tool registry) (add-IsKeyed tool registry h)

  find-without :
      (name other : String) (rest : List (Tool W))
      → (name == other) ≡ false
      → find name (map entry (without other rest)) ≡ find name (map entry rest)
  unfolding find
  find-without name other [] h = refl
  find-without name other (tool ∷ rest) h = ground (
    arith,
    eq_iff tool.name other,
    eq_iff name tool.name,
    eq_iff name other,
    find-without name other rest h,
  )

  find-firsts :
      (name : String) (rest : List (Tool W))
      → find name (map entry (firsts rest)) ≡ first_named name rest
  unfolding find
  find-firsts name [] = refl
  find-firsts name (tool ∷ rest) =
      ground (arith, find-without name tool.name (firsts rest), find-firsts name rest)

  views-entries : (rest : List (Tool W)) → map view_of (map entry rest) ≡ map view rest
  views-entries [] = refl
  views-entries (tool ∷ rest) = ap (λ vs. view tool ∷ vs) (views-entries rest)

  -- What a call of a tool does where `tool` is what is registered under the name.
  abbrev pub call_tool : String → Option (Tool W) → Json → Action W Json
  call_tool name none args = lift (throw (runtime_error ("unknown tool: " <> name)))
  call_tool name (some tool) args = tool.execute args

  execute-find :
      (name : String) (args : Json) (registry : ToolRegistry W) (w : W) (found : Option (Tool W))
      → find name registry.tools ≡ found
      → execute name args registry w ≡ call_tool name found args w
  unfolding execute get
  execute-find name args registry w none h = rw h refl
  execute-find name args registry w (some tool) h = rw h refl

  pub execute-add_all :
      (name : String) (args : Json) (rest : List (Tool W)) (w : W)
      → execute name args (add_all rest Registry.empty) w
        ≡ call_tool name (first_named name rest) args w
  execute-add_all name args rest w =
      execute-find name args (add_all rest Registry.empty) w (first_named name rest)
        (ap (find name) (add_all-empty rest) ∙ find-firsts name rest)

  pub tools-add_all :
      (p : Platform) (rest : List (Tool W))
      → ((names : List String) → Perm (p.bucket_order names) names)
      → Perm (tools p (add_all rest Registry.empty)) (map view (firsts rest))
  tools-add_all p rest order =
      let registry = add_all rest Registry.empty in
      subst (λ vs. Perm (tools p registry) vs)
        (ap (map view_of) (add_all-empty rest) ∙ views-entries (firsts rest))
        (tools-perm p registry (add_all-IsKeyed rest Registry.empty tt)
          (order (keys registry.tools)))
