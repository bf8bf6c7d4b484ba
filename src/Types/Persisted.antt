-- ===== src/Types/Persisted.antt =====
-- A conversation that is kept as a text: `to_json`, `dump`, `parse` and `from_json` in a row.
use forgeant.Double.{Double, is_finite}
use forgeant.Prelude.{true, String, ◌≡◌, refl, Option, none, some, List, [], ◌∷◌, ◌++◌, map, All}
use forgeant.Outcome.{ok}
use forgeant.Action.{lift, ◌>>=◌}
use forgeant.Platform.{Platform, ReadResult}
use forgeant.Json.{Json, null, array, object, items, object_of, insert}
use forgeant.Json.Text.{dump, parse}
use forgeant.Json.Text.Sorted.{IsSorted, AllSorted}
use forgeant.Json.Text.RoundTrip.{Survives, AllSurvive, parse-dump}
use forgeant.Json.Text.Grammar.{Spells}
use forgeant.Json.Text.Writing.{generic_of, IsFinite, AllFinite}
use forgeant.Types.Role
use forgeant.Types.Role.{Role}
use forgeant.Types.Content
use forgeant.Types.Content.{ContentBlock, text_block, tool_use_block, tool_result_block}
use forgeant.Types.Message.{Message}
use forgeant.Types.Conversation
use forgeant.Types.Conversation.{Conversation}
use forgeant.Types.RoundTrip.{
  block_json, role_json, written, prompt_members, prompt_after, to_json-message,
  to_json-conversation, from_json-to_json_conversation,
}

-- What the text of a `Json` keeps: sorted objects, and finite numbers that survive.
abbrev pub IsKept : Json → Type 0
IsKept j = IsSorted j × (Survives j × IsFinite j)

abbrev pub InputIsKept : ContentBlock → Type 0
InputIsKept (tool_use_block call) = IsKept call.input
InputIsKept (text_block _) = Unit
InputIsKept (tool_result_block _) = Unit

abbrev pub MessageIsKept : Message → Type 0
MessageIsKept msg = All InputIsKept msg.content

items-IsKept :
    {A : Type 0} (P : A → Type 0) (f : A → Json) (xs : List A)
    → ((x : A) → P x → IsKept (f x))
    → All P xs
    → AllSorted (items (map f xs)) × (AllSurvive (items (map f xs)) × AllFinite (items (map f xs)))
items-IsKept P f [] keeps h = (tt, (tt, tt))
items-IsKept P f (x ∷ xs) keeps h =
    let first = keeps x h.0 in
    let rest = items-IsKept P f xs keeps h.1 in
    ((first.0, rest.0), ((first.1.0, rest.1.0), (first.1.1, rest.1.1)))

block_json-IsKept : (block : ContentBlock) → InputIsKept block → IsKept (block_json block)
unfolding Content.to_json object_of
block_json-IsKept (text_block block) h =
    ((((refl, tt), (tt, tt)), (tt, (tt, tt))), ((tt, (tt, tt)), (tt, (tt, tt))))
block_json-IsKept (tool_use_block call) h = (
  (
    ((refl, (refl, (refl, tt))), ((refl, (refl, tt)), ((refl, tt), (tt, tt)))),
    (tt, (h.0, (tt, (tt, tt)))),
  ),
  ((tt, (h.1.0, (tt, (tt, tt)))), (tt, (h.1.1, (tt, (tt, tt))))),
)
block_json-IsKept (tool_result_block result) h = (
  (
    ((refl, (refl, (refl, tt))), ((refl, (refl, tt)), ((refl, tt), (tt, tt)))),
    (tt, (tt, (tt, (tt, tt)))),
  ),
  ((tt, (tt, (tt, (tt, tt)))), (tt, (tt, (tt, (tt, tt))))),
)

role_json-IsKept : (role : Role) → IsKept (role_json role)
unfolding Role.to_json
role_json-IsKept Role.system = (tt, (tt, tt))
role_json-IsKept Role.user = (tt, (tt, tt))
role_json-IsKept Role.assistant = (tt, (tt, tt))
role_json-IsKept Role.tool = (tt, (tt, tt))

written-IsKept : (msg : Message) → MessageIsKept msg → IsKept (written msg)
written-IsKept msg h =
    let blocks = items-IsKept InputIsKept block_json msg.content block_json-IsKept h in
    let role = role_json-IsKept msg.role in
    rw (written, to_json-message msg null)
      (
        (((refl, tt), (tt, tt)), (blocks.0, (role.0, tt))),
        ((blocks.1.0, (role.1.0, tt)), (blocks.1.1, (role.1.1, tt))),
      )

-- The JSON of a conversation is kept, if the inputs of its tool calls are.
to_json-IsKept :
    (conv : Conversation) (j : Json)
    → All MessageIsKept conv.messages
    → IsKept (Conversation.to_json conv j).1
unfolding insert
to_json-IsKept conv j h =
    rw (to_json-conversation conv j)
      (go conv.system_prompt (items-IsKept MessageIsKept written conv.messages written-IsKept h))
  where
    go :
        (prompt : Option String)
        → AllSorted (items (map written conv.messages))
          × (AllSurvive (items (map written conv.messages))
              × AllFinite (items (map written conv.messages)))
        → IsKept (
            object (
              insert "messages"
                (array (items (map written conv.messages)))
                (prompt_members prompt)))
    go none list = (((tt, tt), (list.0, tt)), ((list.1.0, tt), (list.1.1, tt)))
    go (some prompt) list =
        ((((refl, tt), (tt, tt)), (list.0, (tt, tt))), ((list.1.0, (tt, tt)), (list.1.1, (tt, tt))))

-- A conversation that is written as a text is read back from it: its messages come in order behind
-- those that the reader has, and its system prompt, if it has one, replaces the one of the reader.
-- `std::to_chars` must write a numeral for each finite double, the reader of JSON must read every text
-- of the RFC 8259 grammar that stands for the JSON of the conversation as its value, and the inputs of
-- the tool calls must have ascending keys and finite numbers that the text keeps.
pub from_json-dump :
    (p : Platform) (Numeral : Double → String → Type 0)
    → ((d : Double) → is_finite d ≡ true → Numeral d (p.double_chars d))
    → (conv start : Conversation) → All MessageIsKept conv.messages
    → ((t : String)
        → Spells Numeral (generic_of (Conversation.to_json conv null).1) t
        → p.read_json t ≡ ReadResult.value (generic_of (Conversation.to_json conv null).1))
    → (lift (parse p (dump p (Conversation.to_json conv null).1)) >>= Conversation.from_json) start
      ≡ (
        ok tt,
        record {
          system_prompt = prompt_after conv.system_prompt start.system_prompt;
          messages = start.messages ++ conv.messages;
        },
      )
from_json-dump p Numeral chars conv start kept reads =
    let j = (Conversation.to_json conv null).1 in
    let keeps = to_json-IsKept conv null kept in
    rw (parse-dump p Numeral chars j keeps.0 keeps.1.0 keeps.1.1 reads)
      (from_json-to_json_conversation conv start null)
