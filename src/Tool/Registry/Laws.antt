-- ===== src/Tool/Registry/Laws.antt =====
-- The registry as a map from names to tools: the first tool of a name stays.
use mathlib.Core.Path.{subst}
use mathlib.Core.Option
use mathlib.Core.List.{filter_map, Perm}
use mathlib.Core.List.Perm
use forgeant.Prelude.{sym}
use forgeant.Prelude.{
  String, ◌<>◌, ◌≡◌, refl, ap, ◌∙◌, false, Option, none, some, List, [], ◌∷◌, ◌++◌, ◌==◌, eq_iff,
  if◌then◌else◌, is_some, arith, Option-cases, inl, inr, map, eq_refl, All,
}
use forgeant.Outcome.{ok, throw, runtime_error}
use forgeant.Platform.{Platform}
use forgeant.Tool.{Tool, ToolView, view}
use forgeant.Tool.Registry.{ToolRegistry, keys, find, add, get, has, views, tools}

module _ {W : Type 0} where
  pub find-append :
      (name : String) (entries : List (String × Tool W)) (key : String) (tool : Tool W)
      → find name (entries ++ (key, tool) ∷ []) ≡ (
          if is_some (find name entries)
          then find name entries
          else if name == key
          then some tool
          else none)
  unfolding find
  find-append name [] key tool = ground (arith, eq_iff name key)
  find-append name ((j, t) ∷ entries) key tool =
      ground (arith, eq_iff name j, eq_iff name key, find-append name entries key tool)

  -- After `add`, a name that was registered has the tool that it had, the name of the new tool has
  -- the new tool otherwise, and every other name is unknown as before.
  pub get-add :
      (name : String) (tool : Tool W) (registry : ToolRegistry W)
      → get name (add tool registry) ≡ (
          if has name registry
          then get name registry
          else if name == tool.name
          then ok tool
          else throw (runtime_error ("unknown tool: " <> name)))
  unfolding get add has
  get-add name tool registry =
      ground (arith, find-append name registry.tools tool.name tool, eq_iff name tool.name)

  -- Every key is the name of its tool and stands once.
  abbrev pub IsKeyed : List (String × Tool W) → Type 0
  IsKeyed [] = Unit
  IsKeyed ((key, tool) ∷ entries) = (key ≡ tool.name) × (find key entries ≡ none) × IsKeyed entries

  IsKeyed-append :
      (entries : List (String × Tool W)) (tool : Tool W)
      → find tool.name entries ≡ none
      → IsKeyed entries
      → IsKeyed (entries ++ (tool.name, tool) ∷ [])
  unfolding find
  IsKeyed-append [] tool fresh h = (refl, refl, tt)
  IsKeyed-append ((key, t) ∷ entries) tool fresh h = (
    h.0,
    ground (
      arith,
      find-append key entries tool.name tool,
      h.1,
      eq_iff key tool.name,
      eq_iff tool.name key,
    ),
    IsKeyed-append entries tool (ground (arith, eq_iff tool.name key)) h.2,
  )

  -- `add` keeps the registry well formed: every key is the name of its tool and stands once.
  pub add-IsKeyed :
      (tool : Tool W) (registry : ToolRegistry W)
      → IsKeyed registry.tools
      → IsKeyed (add tool registry).tools
  unfolding add
  add-IsKeyed tool registry h = elim (Option-cases (find tool.name registry.tools)) [
    | inl fresh ↦ rw fresh (IsKeyed-append registry.tools tool fresh h)
    | inr (t, known) ↦ rw known h
  ]

  -- The names that stand behind an entry are not its key.
  keys-fresh :
      (key : String) (entries : List (String × Tool W))
      → find key entries ≡ none
      → All (λ name. (name == key) ≡ false) (keys entries)
  unfolding find
  keys-fresh key [] h = tt
  keys-fresh key ((j, t) ∷ entries) h = (
    ground (arith, eq_iff j key, eq_iff key j),
    keys-fresh key entries (ground (arith, eq_iff key j)),
  )

  views-skip :
      (key : String) (tool : Tool W) (entries : List (String × Tool W)) (names : List String)
      → All (λ name. (name == key) ≡ false) names
      → views ((key, tool) ∷ entries) names ≡ views entries names
  unfolding views
  views-skip key tool entries [] h = refl
  views-skip key tool entries (name ∷ names) h = rw h.0 (rw (views-skip key tool entries names h.1))

  abbrev pub view_of : String × Tool W → ToolView
  view_of (_, tool) = view tool

  views-keys :
      (entries : List (String × Tool W))
      → IsKeyed entries
      → views entries (keys entries) ≡ map view_of entries
  unfolding views
  views-keys [] h = refl
  views-keys ((key, tool) ∷ entries) h = rw (eq_refl key) (
      ap (λ vs. view tool ∷ vs)
        (views-skip key tool entries (keys entries) (keys-fresh key entries h.1)
          ∙ views-keys entries h.2))

  view? : List (String × Tool W) → String → Option ToolView
  view? entries name = Option.map view (find name entries)

  views-filter_map :
      (entries : List (String × Tool W)) (names : List String)
      → views entries names ≡ filter_map (view? entries) names
  unfolding views view? filter_map
  views-filter_map entries [] = refl
  views-filter_map entries (name ∷ names) = elim (Option-cases (find name entries)) [
    | inl e ↦ rw e (views-filter_map entries names)
    | inr (tool, e) ↦ rw e (ap (λ vs. view tool ∷ vs) (views-filter_map entries names))
  ]

  -- Whatever order the buckets have, `tools` gives the view of each registered tool, once.
  pub tools-perm :
      (p : Platform) (registry : ToolRegistry W)
      → IsKeyed registry.tools
      → Perm (p.bucket_order (keys registry.tools)) (keys registry.tools)
      → Perm (tools p registry) (map view_of registry.tools)
  unfolding tools
  tools-perm p registry keyed order =
      rw (views-filter_map registry.tools (p.bucket_order (keys registry.tools))) (
        subst
          (λ vs. Perm (filter_map (view? registry.tools) (p.bucket_order (keys registry.tools))) vs)
          (sym (views-filter_map registry.tools (keys registry.tools))
            ∙ views-keys registry.tools keyed)
          (Perm.filter_map (view? registry.tools) order))
