-- ===== src/Types/Texts.antt =====
-- The texts of a message, as lists: what the descriptions of "first" and "last" text are stated with.
use forgeant.Prelude.{String, ◌≡◌, refl, Option, none, some, value_or, List, [], ◌∷◌}
use forgeant.Types.Content.{ContentBlock, text_block, tool_use_block, tool_result_block}

-- The texts of the text blocks, in order.
abbrev pub texts : List ContentBlock → List String
texts [] = []
texts (text_block block ∷ blocks) = block.text ∷ texts blocks
texts (tool_use_block _ ∷ blocks) = texts blocks
texts (tool_result_block _ ∷ blocks) = texts blocks

abbrev pub first : List String → Option String
first [] = none
first (s ∷ rest) = some s

abbrev pub last : List String → Option String
last [] = none
last (s ∷ []) = some s
last (s ∷ t ∷ rest) = last (t ∷ rest)

-- The text of the last text block, and empty if there is none.
abbrev pub last_block_text : List ContentBlock → String
last_block_text blocks = value_or (last (texts blocks)) ""

last-some :
    (s : String) (rest : List String) (a b : String)
    → value_or (last (s ∷ rest)) a ≡ value_or (last (s ∷ rest)) b
last-some s [] a b = refl
last-some s (t ∷ rest) a b = last-some t rest a b

pub last-cons :
    (s : String) (rest : List String) (a : String)
    → value_or (last (s ∷ rest)) a ≡ value_or (last rest) s
last-cons s [] a = refl
last-cons s (t ∷ rest) a = last-some t rest a s
