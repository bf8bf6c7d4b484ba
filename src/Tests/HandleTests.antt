-- ===== src/Tests/HandleTests.antt =====
-- Clients over libcurl that are made, moved, used and destroyed.
use forgeant.Prelude.{zero, suc, ℕ, ◌≡◌, refl, true, false, some, none, arith}
use forgeant.Prelude.Int.{pos}
use forgeant.Outcome.{ok}
use forgeant.Http.Curl.{Config}
use forgeant.Http.Curl.Handles.{
  Client, Store, Call, creates, destroys, moves, assigns, posts, exec, at_exit,
}
use forgeant.Http.Curl.Handles.Updates.{eqb_apart}
use forgeant.Http.Curl.Handles.Calls.{IsSafe}
use forgeant.Http.Curl.Handles.Lifetimes.{
  Lifetime, done, after, no_clients, no_clients-WellOwned, exec-WellOwned, no_leak,
}

abbrev config : Config
config = record { connect_timeout = pos 30; transfer_timeout = pos 300 }

exec-WellOwned_example : IsSafe (exec (creates 0 config 5 (some 7))) no_clients
exec-WellOwned_example =
    exec-WellOwned (creates 0 config 5 (some 7)) no_clients (refl, refl, λ h e. refl)
      no_clients-WellOwned

-- The store after a call of the sequence.
abbrev next : Call → Store → Store
unfolding exec
next call s = elim (exec call s) [ none ↦ s | some (r, t) ↦ t ]

abbrev made : Store
made = next (creates 0 config 5 (some 7)) no_clients

abbrev taken : Store
taken = next (moves 1 0) made

abbrev kept : Store
kept = next (assigns 1 1) taken

abbrev used : Store
used = next (posts 1) kept

abbrev first_gone : Store
first_gone = next (destroys 0) used

abbrev all_gone : Store
all_gone = next (destroys 1) first_gone

abbrev owner : Client
owner = record { impl = some 5; config = config }

abbrev moved_from : Client
moved_from = record { impl = none; config = config }

calls : Lifetime no_clients all_gone
unfolding exec
calls =
    after (creates 0 config 5 (some 7)) (ok tt) (refl, refl, λ h e. refl) refl
      (after (moves 1 0) (ok tt) (refl, (owner, refl)) refl
        (after (assigns 1 1) (ok tt) ((owner, refl), (owner, refl)) refl
          (after (posts 1) (ok tt) (owner, refl, (5, refl)) refl
            (after (destroys 0) (ok tt) (moved_from, refl) refl
              (after (destroys 1) (ok tt) (owner, refl) refl done)))))

gone : (i : ℕ) → all_gone.clients i ≡ none
unfolding next
gone zero = refl
gone (suc zero) = refl
gone (suc (suc i)) =
    rw (eqb_apart (suc (suc i)) 1 (λ e. omega arith), eqb_apart (suc (suc i)) 0 (λ e. omega arith))
      refl

no_leak_example : ((a : ℕ) → all_gone.cells a ≡ none) × ((h : ℕ) → all_gone.handles h ≡ false)
no_leak_example = no_leak all_gone calls gone

-- libcurl is ready after the first client, and given back at the exit.
guard_runs :
    (all_gone.global_init ≡ true)
    × (at_exit all_gone ≡ some (tt, record all_gone { global_init = false }))
unfolding next
guard_runs = (refl, refl)
