-- ===== src/Agent/Transcript.antt =====
-- The conversation that a run of the loop leaves, in its result or in its error.
use mathlib.Core.List.{append_assoc, append-nil}
use forgeant.Prelude.{ℕ, ◌≡◌, refl, sym, ap, ◌∙◌, Option, List, [], ◌∷◌, ◌++◌, ◌⊎◌, inl, inr, All}
use forgeant.Platform.{Platform}
use forgeant.Json.{Json}
use forgeant.Types.Role
use forgeant.Types.Message.{Message}
use forgeant.Types.Conversation.{Conversation}
use forgeant.Provider.{ChatRequest}
use forgeant.Agent.{
  Agent, LoopResult, Run, returned, failed, RunOverrides, has_tool_use, dispatch_tools,
  execute_loop,
}
use forgeant.Agent.Dispatch.{
  IsResult, call_ids, result_ids, call_ids-nil, call_ids-results, dispatch_tools-ids,
}
use forgeant.Agent.Turns.{
  State, Turn, Turns, at_start, one_more, answer, broken, exhausted, RunEnds, execute_loop-RunEnds,
}

abbrev pub conversation_of : Run LoopResult → Conversation
conversation_of (returned result) = result.conversation
conversation_of (failed e) = e.conversation

-- `b` is `a` with messages added at the end.
abbrev pub Extends : Conversation → Conversation → Type 0
Extends a b =
    (b.system_prompt ≡ a.system_prompt)
    × ((added : List Message) × (b.messages ≡ a.messages ++ added))

Extends-refl : (a : Conversation) → Extends a a
Extends-refl a = (refl, ([], sym (append-nil a.messages)))

Extends-trans : (a b c : Conversation) → Extends a b → Extends b c → Extends a c
Extends-trans a b c (p, (xs, e)) (q, (ys, f)) =
    (q ∙ p, (xs ++ ys, f ∙ (ap (λ ms. ms ++ ys) e ∙ append_assoc a.messages xs ys)))

-- `next` holds the results of exactly the tool calls of `m`, in order, if `m` has any.
abbrev pub Answers : Message → Message → Type 0
Answers m next =
    (call_ids m.content ≡ [])
    ⊎ ((next.role ≡ Role.tool)
        × All IsResult next.content
        × (result_ids next.content ≡ call_ids m.content))

-- Each message with tool calls is followed by the message that answers them.
abbrev pub IsPaired : List Message → Type 0
IsPaired [] = Unit
IsPaired (m ∷ []) = call_ids m.content ≡ []
IsPaired (m ∷ next ∷ rest) = Answers m next × IsPaired (next ∷ rest)

IsPaired-append : (xs ys : List Message) → IsPaired xs → IsPaired ys → IsPaired (xs ++ ys)
IsPaired-append [] ys hx hy = hy
IsPaired-append (m ∷ []) [] hx hy = hx
IsPaired-append (m ∷ []) (y ∷ ys) hx hy = (inl hx, hy)
IsPaired-append (m ∷ next ∷ rest) ys hx hy = (hx.0, IsPaired-append (next ∷ rest) ys hx.1 hy)

module _ {W : Type 0} (p : Platform) (agent : Agent W) (request : ChatRequest) where
  -- The message that answers the tool calls of a round.
  abbrev tool_message : {s t : State W} → Turn p agent request s t → Message
  tool_message turn = record {
    role = Role.tool;
    content = (dispatch_tools p agent.registry turn.response.message.content turn.world).0;
  }

  Turn-Extends : {s t : State W} → Turn p agent request s t → Extends s.conversation t.conversation
  Turn-Extends {s} turn = rw turn.leads_to (
    refl,
    (
      turn.response.message ∷ tool_message turn ∷ [],
      append_assoc s.conversation.messages (turn.response.message ∷ []) (tool_message turn ∷ []),
    ),
  )

  pub Turns-Extends :
      {n : ℕ} {s t : State W} → Turns p agent request n s t → Extends s.conversation t.conversation
  Turns-Extends at_start = Extends-refl _
  Turns-Extends (one_more turn turns) =
      Extends-trans _ _ _ (Turn-Extends turn) (Turns-Extends turns)

  Turn-IsPaired :
      {s t : State W}
      → Turn p agent request s t
      → IsPaired s.conversation.messages
      → IsPaired t.conversation.messages
  Turn-IsPaired {s} turn h =
      let ids = dispatch_tools-ids p agent.registry turn.response.message.content turn.world in
      rw turn.leads_to (
        rw
          (append_assoc s.conversation.messages (turn.response.message ∷ [])
            (tool_message turn ∷ []))
          (IsPaired-append s.conversation.messages (turn.response.message ∷ tool_message turn ∷ [])
            h (inr (refl, ids.0, ids.1), call_ids-results _ ids.0)))

  Turns-IsPaired :
      {n : ℕ} {s t : State W}
      → Turns p agent request n s t
      → IsPaired s.conversation.messages
      → IsPaired t.conversation.messages
  Turns-IsPaired at_start h = h
  Turns-IsPaired (one_more turn turns) h = Turns-IsPaired turns (Turn-IsPaired turn h)

module _ {W : Type 0} (p : Platform) (agent : Agent W) (working : Conversation)
    (overrides : RunOverrides) (output_schema : Option Json) (w : W) where
  -- Whatever the outcome, the conversation that the loop leaves is the one that it was given with
  -- messages added at the end, under the same system prompt.
  pub execute_loop-Extends :
      Extends working (conversation_of (execute_loop p agent working overrides output_schema w).0)
  execute_loop-Extends = go _ (execute_loop-RunEnds p agent working overrides output_schema w)
    where
      go :
          (r : Run LoopResult × W)
          → RunEnds p agent working overrides output_schema w r
          → Extends working (conversation_of r.0)
      go r (answer n t response w' lt turns asked done e) = rw e (
          Extends-trans _ _ _ (Turns-Extends p agent _ turns) (refl, (response.message ∷ [], refl)))
      go r (broken n t x w' lt turns asked e) = rw e (Turns-Extends p agent _ turns)
      go r (exhausted t turns e) = rw e (Turns-Extends p agent _ turns)

  -- If every tool call in the conversation that the loop is given is answered, then so is every tool
  -- call in the one that it leaves, whether the run returned a result or failed.
  pub execute_loop-IsPaired :
      IsPaired working.messages
      → IsPaired
          (conversation_of (execute_loop p agent working overrides output_schema w).0).messages
  execute_loop-IsPaired h = go _ (execute_loop-RunEnds p agent working overrides output_schema w)
    where
      go :
          (r : Run LoopResult × W)
          → RunEnds p agent working overrides output_schema w r
          → IsPaired (conversation_of r.0).messages
      go r (answer n t response w' lt turns asked done e) = rw e (
          IsPaired-append t.conversation.messages (response.message ∷ [])
            (Turns-IsPaired p agent _ turns h)
            (call_ids-nil response.message.content (unfold has_tool_use in done)))
      go r (broken n t x w' lt turns asked e) = rw e (Turns-IsPaired p agent _ turns h)
      go r (exhausted t turns e) = rw e (Turns-IsPaired p agent _ turns h)
