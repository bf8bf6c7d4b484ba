-- ===== src/Agent/LastText.antt =====
-- `extract_last_text` against a description of the text that it returns.
use mathlib.Core.List.{reverse, reverse-reverse, reverse-cons, reverse-append, append_assoc}
use mathlib.Core.Path.{subst}
use forgeant.Prelude.{
  value_or, String, ◌≡◌, refl, sym, ap, ◌∙◌, Option, none, some, List, [], ◌∷◌, ◌++◌, All,
}
use forgeant.Types.Role.{Role}
use forgeant.Types.Content.{ContentBlock, text_block, tool_use_block, tool_result_block}
use forgeant.Types.Texts.{texts, first}
use forgeant.Types.Message.{Message}
use forgeant.Types.Conversation
use forgeant.Types.Conversation.{Conversation}
use forgeant.Agent.{first_text, last_text, extract_last_text}

-- The first text block of a message.
pub first_text-first : (blocks : List ContentBlock) → first_text blocks ≡ first (texts blocks)
unfolding first_text
first_text-first [] = refl
first_text-first (text_block block ∷ blocks) = refl
first_text-first (tool_use_block _ ∷ blocks) = first_text-first blocks
first_text-first (tool_result_block _ ∷ blocks) = first_text-first blocks

-- A message that is no answer with a text.
abbrev pub HasNoText : Message → Type 0
HasNoText m = m.role ≡ Role.assistant → first (texts m.content) ≡ none

-- `t` is the first text of the last assistant message that has one, and empty if none has.
pub data IsLastText (ms : List Message) (t : String) : Type 0 where
  found :
      (before : List Message) (m : Message) (after : List Message)
      → ms ≡ before ++ m ∷ after
      → m.role ≡ Role.assistant
      → first (texts m.content) ≡ some t
      → All HasNoText after
      → IsLastText ms t
  absent : All HasNoText ms → t ≡ "" → IsLastText ms t

All-snoc :
    (ms : List Message) (m : Message)
    → All HasNoText ms
    → HasNoText m
    → All HasNoText (ms ++ m ∷ [])
All-snoc [] m hs h = (h, tt)
All-snoc (x ∷ ms) m hs h = (hs.0, All-snoc ms m hs.1 h)

IsLastText-snoc :
    (ms : List Message) (m : Message) (t : String)
    → HasNoText m
    → IsLastText ms t
    → IsLastText (ms ++ m ∷ []) t
IsLastText-snoc ms m t h (found before x after e role text none_after) =
    found before x (after ++ m ∷ [])
      (ap (λ l. l ++ m ∷ []) e ∙ append_assoc before (x ∷ after) (m ∷ [])) role text
      (All-snoc after m none_after h)
IsLastText-snoc ms m t h (absent all e) = absent (All-snoc ms m all h) e

-- One message more, by its role and its first text.
last_text-cons :
    (role : Role) (content : List ContentBlock) (text : Option String) (earlier : List Message)
    → first_text content ≡ text
    → IsLastText (reverse earlier) (last_text earlier)
    → let m : Message = record { role = role; content = content } in
      IsLastText (reverse earlier ++ m ∷ []) (last_text (m ∷ earlier))
unfolding last_text
last_text-cons Role.assistant content (some t) earlier e ih =
    rw (e, value_or)
      (found (reverse earlier) (record { role = Role.assistant; content = content }) [] refl refl
        (sym (first_text-first content) ∙ e) tt)
last_text-cons Role.assistant content none earlier e ih =
    rw (e, value_or)
      (IsLastText-snoc (reverse earlier) _ _ (λ _. sym (first_text-first content) ∙ e) ih)
last_text-cons Role.system content text earlier e ih =
    IsLastText-snoc (reverse earlier) _ _ (λ h. cc) ih
last_text-cons Role.user content text earlier e ih =
    IsLastText-snoc (reverse earlier) _ _ (λ h. cc) ih
last_text-cons Role.tool content text earlier e ih =
    IsLastText-snoc (reverse earlier) _ _ (λ h. cc) ih

-- The loop, over the messages with the last one first.
last_text-IsLastText : (latest : List Message) → IsLastText (reverse latest) (last_text latest)
unfolding last_text
last_text-IsLastText [] = absent tt refl
last_text-IsLastText (m ∷ earlier) = rw reverse-cons (
    last_text-cons m.role m.content (first_text m.content) earlier refl
      (last_text-IsLastText earlier))

-- The text of a conversation is the first text block of the last assistant message that has one, and
-- empty if no assistant message has a text block.
pub extract_last_text-IsLastText :
    (conv : Conversation) → IsLastText conv.messages (extract_last_text conv)
unfolding extract_last_text
extract_last_text-IsLastText conv =
    subst (λ ms. IsLastText ms (last_text (reverse conv.messages))) (reverse-reverse conv.messages)
      (last_text-IsLastText (reverse conv.messages))

-- The text of the last message, where that is an answer with a text.
pub extract_last_text-add :
    (conv : Conversation) (m : Message) (text : String)
    → m.role ≡ Role.assistant
    → first (texts m.content) ≡ some text
    → extract_last_text (Conversation.add m conv) ≡ text
unfolding extract_last_text last_text
extract_last_text-add conv m text role says =
    rw reverse-append (rw (role, first_text-first m.content, says) refl)
