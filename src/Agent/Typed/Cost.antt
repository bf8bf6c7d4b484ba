-- ===== src/Agent/Typed/Cost.antt =====
-- How often a typed run calls the provider.
use native.Mathlib.Nat.{mul-le-mul_right, suc-mul}
use mathlib.Core.Path.{subst}
use forgeant.Prelude.{ℕ, suc, ◌+◌, ◌*◌, ◌≤◌, ◌<◌, ◌≡◌, ap, some, arith}
use forgeant.Prelude.Int.{pos_part}
use forgeant.Outcome.{Outcome}
use forgeant.Platform.{Platform}
use forgeant.Json.{Json}
use forgeant.Types.Conversation.{Conversation}
use forgeant.Agent.{Agent, AgentResult, LoopResult, Run, RunOverrides, iteration_cap}
use forgeant.Agent.Metering.{ToolsKeep, ChatCounts, execute_loop-calls_bound}
use forgeant.Agent.Typed.{default_retries, execute_typed}
use forgeant.Agent.Typed.Retries.{
  Progress, attempt_at, Retries, no_retry, retry_then, TypedEnds, readable, aborted, unread, fresh,
  execute_typed-TypedEnds,
}

module _ {W T : Type 0} (p : Platform) (get : Json → Outcome T) (agent : Agent W) (calls : W → ℕ)
    (keep : ToolsKeep agent calls) (counts : ChatCounts agent calls) (overrides : RunOverrides)
    (schema : Json) where
  abbrev cap : ℕ
  cap = pos_part (iteration_cap p agent overrides)

  attempt_at-calls :
      (s : Progress W) (r : Run LoopResult) (w : W)
      → attempt_at p get agent overrides schema s ≡ (r, w)
      → calls w ≤ calls s.world + cap
  attempt_at-calls s r w e =
      subst (λ x. calls x.1 ≤ calls s.world + cap) e
        (execute_loop-calls_bound p agent calls keep counts s.conversation overrides (some schema)
          s.world)

  Retries-calls :
      (n attempt : ℕ) (s t : Progress W)
      → Retries p get agent overrides schema n attempt s t
      → calls t.world ≤ calls s.world + n * cap
  Retries-calls n attempt s t no_retry = omega arith
  Retries-calls (suc n) attempt s t (retry_then {t = middle} first rest) =
      let here = attempt_at-calls s _ first.world first.returns in
      let later = Retries-calls n (attempt + 1) middle t rest in
      let same = ap (λ x. calls x.world) first.leads_to in
      rw (suc-mul n cap) (omega (arith, here, later, same))

  -- Where tools do not count as calls of the provider, a typed run ends after at most three times as
  -- many calls of the provider as the cap allows, whatever the answers are; a negative cap allows none.
  pub execute_typed-calls :
      (working : Conversation) (w : W)
      → calls (execute_typed p get agent schema working overrides w).1
        ≤ calls w + 3 * pos_part (iteration_cap p agent overrides)
  execute_typed-calls working w =
      go _ (execute_typed-TypedEnds p get agent schema working overrides w)
    where
      within :
          (n before after : ℕ)
          → n < suc default_retries
          → after ≤ before + cap
          → before ≤ calls w + n * cap
          → after ≤ calls w + 3 * cap
      within n before after lt step start =
          let less = mul-le-mul_right {m = suc n} {n = 3} cap lt in
          let split = suc-mul n cap in omega (arith, less, split)

      go :
          (r : Run (AgentResult T) × W)
          → TypedEnds p get agent overrides schema (suc default_retries) 0 (fresh working w) r
          → calls r.1 ≤ calls w + 3 * cap
      go r (readable n t result output w' lt retries loop parsed e) = rw e (
          within n (calls t.world) (calls w') lt (attempt_at-calls t _ w' loop)
            (Retries-calls n 0 _ t retries))
      go r (aborted n t x w' lt retries loop e) = rw e (
          within n (calls t.world) (calls w') lt (attempt_at-calls t _ w' loop)
            (Retries-calls n 0 _ t retries))
      go r (unread t retries e) = rw e (Retries-calls 3 0 _ t retries)
