-- ===== src/Types/Reading.antt =====
-- What `from_json` of a conversation leaves behind, also where it throws halfway.
use mathlib.Core.List.{append-nil, append_assoc}
use mathlib.Core.Path.{subst}
use forgeant.Prelude.{
  String, ◌≡◌, refl, sym, ◌∙◌, ap, ◌↔◌, true, false, List, [], ◌∷◌, ◌++◌, Bool-cases, ◌⊎◌, inl, inr,
  if◌then◌else◌,
}
use forgeant.Outcome.{Outcome-cases, Outcome, Exception, ok, throw, ◌>>=◌}
use forgeant.Action.{Action, pure, modify, continue}
use forgeant.Json.{Json, Items, elements, at, contains, get_items, get_string}
use forgeant.Json.Update.{for_each}
use forgeant.Types.Message.{Message, get_message}
use forgeant.Types.Conversation
use forgeant.Types.Conversation.{Conversation, read_message, read_prompt}

-- The messages before the first JSON that is no message, and the exception that this one throws.
pub data Reads : List Json → List Message → Outcome (Unit {0}) → Type 0 where
  all_read : Reads [] [] (ok tt)
  unreadable :
      {x : Json} {xs : List Json} {e : Exception}
      → get_message x ≡ throw e
      → Reads (x ∷ xs) [] (throw e)
  readable :
      {x : Json} {xs : List Json} {m : Message} {ms : List Message} {r : Outcome (Unit {0})}
      → get_message x ≡ ok m
      → Reads xs ms r
      → Reads (x ∷ xs) (m ∷ ms) r

-- The conversation once the prompt of the JSON, if there is one, is set.
pub data Prompted (j : Json) (conv : Conversation) : Conversation → Type 0 where
  no_prompt : contains "system_prompt" j ≡ false → Prompted j conv conv
  has_prompt :
      {prompt : String}
      → contains "system_prompt" j ≡ true
      → (at "system_prompt" j >>= get_string) ≡ ok prompt
      → Prompted j conv (Conversation.set_system_prompt prompt conv)

pub data ReadEnds (j : Json) (conv : Conversation)
    : Outcome (Unit {0}) → Conversation → Type 0 where
  bad_prompt :
      {e : Exception}
      → contains "system_prompt" j ≡ true
      → (at "system_prompt" j >>= get_string) ≡ throw e
      → ReadEnds j conv (throw e) conv
  bad_list :
      {e : Exception} {start : Conversation}
      → Prompted j conv start
      → (at "messages" j >>= get_items) ≡ throw e
      → ReadEnds j conv (throw e) start
  listed :
      {xs : Items} {ms : List Message} {r : Outcome (Unit {0})} {start : Conversation}
      → Prompted j conv start
      → (at "messages" j >>= get_items) ≡ ok xs
      → Reads (elements xs) ms r
      → ReadEnds j conv r (record start { messages = start.messages ++ ms })

-- The loop over the messages follows `Reads`.
for_each-Reads :
    {xs : List Json} {ms : List Message} {r : Outcome (Unit {0})} (conv : Conversation)
    → Reads xs ms r
    → for_each xs read_message conv ≡ (r, record conv { messages = conv.messages ++ ms })
unfolding for_each read_message
for_each-Reads conv all_read = rw append-nil refl
for_each-Reads conv (unreadable h) = rw h (rw append-nil refl)
for_each-Reads conv (readable {m = m} h t) =
    rw h (for_each-Reads (Conversation.add m conv) t ∙ rw append_assoc refl)

Reads-total : (xs : List Json) → (ms : List Message) × (r : Outcome (Unit {0})) × Reads xs ms r
Reads-total [] = ([], ok tt, all_read)
Reads-total (x ∷ xs) = elim (Outcome-cases (get_message x)) [
  | inl (m, h) ↦ let t = Reads-total xs in (m ∷ t.0, t.1, readable h t.2)
  | inr (e, h) ↦ ([], throw e, unreadable h)
]

-- Two reads in a row are one step of an action.
chained :
    {S A B : Type 0} (m : Outcome A) (f : A → Outcome B) (k : B → Action S Unit) (s : S)
    → continue m (λ a. continue (f a) k) s ≡ continue (m >>= f) k s
chained (ok a) f k s = refl
chained (throw e) f k s = refl

abbrev set_prompt : String → Action Conversation Unit
set_prompt prompt = modify (Conversation.set_system_prompt prompt)

-- The two steps of `from_json`.
abbrev prompt_step : Json → Action Conversation Unit
prompt_step j = if contains "system_prompt" j then read_prompt j else pure tt

abbrev read_list : Items → Action Conversation Unit
read_list xs = for_each (elements xs) read_message

abbrev list_step : Json → Action Conversation Unit
list_step j = continue (at "messages" j) (λ messages. continue (get_items messages) read_list)

module _ (j : Json) (conv : Conversation) where
  prompt_step-Prompted :
      {start : Conversation} → Prompted j conv start → prompt_step j conv ≡ (ok tt, start)
  prompt_step-Prompted (no_prompt c) = rw c refl
  prompt_step-Prompted (has_prompt c h) =
      rw c (chained (at "system_prompt" j) get_string set_prompt conv ∙ rw h refl)

  prompt_step-throw :
      {e : Exception}
      → contains "system_prompt" j ≡ true
      → (at "system_prompt" j >>= get_string) ≡ throw e
      → prompt_step j conv ≡ (throw e, conv)
  prompt_step-throw c h =
      rw c (chained (at "system_prompt" j) get_string set_prompt conv ∙ rw h refl)

  prompt_cases :
      ((start : Conversation) × Prompted j conv start)
      ⊎ ((e : Exception) × (contains "system_prompt" j ≡ true)
          × ((at "system_prompt" j >>= get_string) ≡ throw e))
  prompt_cases = elim (Bool-cases (contains "system_prompt" j)) [
    | inr c ↦ inl (conv, no_prompt c)
    | inl c ↦ elim (Outcome-cases (at "system_prompt" j >>= get_string)) [
      | inl (prompt, h) ↦ inl (_, has_prompt c h)
      | inr (e, h) ↦ inr (e, c, h)
    ]
  ]

  ReadEnds-total : (r : Outcome (Unit {0})) × (after : Conversation) × ReadEnds j conv r after
  ReadEnds-total = elim prompt_cases [
    | inr (e, c, h) ↦ (throw e, conv, bad_prompt c h)
    | inl (start, prompted) ↦ elim (Outcome-cases (at "messages" j >>= get_items)) [
      | inr (e, h) ↦ (throw e, start, bad_list prompted h)
      | inl (xs, h) ↦ let t = Reads-total (elements xs) in (t.1, _, listed prompted h t.2)
    ]
  ]

  and_list : Outcome (Unit {0}) × Conversation → Outcome (Unit {0}) × Conversation
  and_list (r, start) = continue r (λ _. list_step j) start

  from_json-ReadEnds :
      {r : Outcome (Unit {0})} {after : Conversation}
      → ReadEnds j conv r after
      → Conversation.from_json j conv ≡ (r, after)
  unfolding Conversation.from_json and_list
  from_json-ReadEnds (bad_prompt c h) = ap and_list (prompt_step-throw c h)
  from_json-ReadEnds (bad_list {start = start} t h) =
      ap and_list (prompt_step-Prompted t)
      ∙ chained (at "messages" j) get_items read_list start
      ∙ rw h refl
  from_json-ReadEnds (listed {start = start} t h reads) =
      ap and_list (prompt_step-Prompted t)
      ∙ chained (at "messages" j) get_items read_list start
      ∙ rw h (for_each-Reads start reads)

  -- `from_json` ends in exactly the ways that `ReadEnds` lists.
  pub from_json_iff :
      (r : Outcome (Unit {0})) (after : Conversation)
      → (Conversation.from_json j conv ≡ (r, after)) ↔ ReadEnds j conv r after
  from_json_iff r after = (
    λ e.
        let t = ReadEnds-total in
        subst (λ result. ReadEnds j conv result.0 result.1) (sym (from_json-ReadEnds t.2) ∙ e) t.2,
    λ ends. from_json-ReadEnds ends,
  )
