-- ===== src/Http/Curl/Handles/Lifetimes.antt =====
-- The calls that make, move, use and destroy clients, in any sequence.
use mathlib.Core.Path.{subst}
use forgeant.Prelude.{
  ℕ, ◌≡◌, ◌≢◌, sym, ◌∙◌, ap, false, Bool-cases, inl, inr, Option, none, some, Option-cases,
}
use forgeant.Outcome.{Outcome}
use forgeant.Http.Curl.Handles.{
  Store, Call, creates, destroys, moves, assigns, posts, posts_async, exec,
}
use forgeant.Http.Curl.Handles.Updates.{absent}
use forgeant.Http.Curl.Handles.Moves.{moves-IsSafe, assigns-IsSafe}
use forgeant.Http.Curl.Handles.Async.{posts_async-IsSafe}
use forgeant.Http.Curl.Handles.Calls.{
  impl_of, WellOwned, Allowed, IsSafe, creates-IsSafe, destroys-IsSafe, posts-IsSafe,
}

-- A call that is allowed never frees or uses what is not there, and keeps each `Impl` and each handle
-- with one owner: construction with or without a handle from libcurl, destruction, both moves (a client
-- may be assigned to itself), the posts of a client that was not moved from, and the client that
-- `async_post` makes for its thread.
pub exec-WellOwned : (call : Call) (s : Store) → Allowed call s → WellOwned s → IsSafe (exec call) s
exec-WellOwned (creates this config a handle) s = creates-IsSafe this config a handle s
exec-WellOwned (destroys this) s = destroys-IsSafe this s
exec-WellOwned (moves this other) s = moves-IsSafe this other s
exec-WellOwned (assigns this other) s = assigns-IsSafe this other s
exec-WellOwned (posts this) s = posts-IsSafe this s
exec-WellOwned (posts_async this config a handle) s = posts_async-IsSafe this config a handle s

same_store :
    {r r' : Outcome (Unit {0})} {t t' : Store}
    → ◌≡◌ {A = Option (Outcome (Unit {0}) × Store)} (some (r, t)) (some (r', t'))
    → t ≡ t'
same_store e = cc

-- A sequence of allowed calls.
pub data Lifetime : Store → Store → Type 0 where
  done : {s : Store} → Lifetime s s
  after :
      {s t u : Store} (call : Call) (r : Outcome (Unit {0}))
      → Allowed call s
      → exec call s ≡ some (r, t)
      → Lifetime t u
      → Lifetime s u

Lifetime-WellOwned : {s u : Store} → Lifetime s u → WellOwned s → WellOwned u
Lifetime-WellOwned done o = o
Lifetime-WellOwned (after call r allowed e rest) o =
    let safe = exec-WellOwned call _ allowed o in
    Lifetime-WellOwned rest (subst WellOwned (same_store (sym safe.2 ∙ e)) safe.3)

-- No client yet.
abbrev pub no_clients : Store
no_clients = record {
  clients = λ i. none;
  cells = λ a. none;
  handles = λ h. false;
  global_init = false;
}

pub no_clients-WellOwned : WellOwned no_clients
no_clients-WellOwned = record {
  alive = λ i a e. cc;
  single = λ i j a e f. cc;
  owner = λ a o e. cc;
  holder = λ h e. cc;
  apart = λ a b h e f. cc;
}

-- Once every client is destroyed, no `Impl` is left and no handle of libcurl is open, however the
-- clients were made, moved and used before.
pub no_leak :
    (s : Store)
    → Lifetime no_clients s
    → ((i : ℕ) → s.clients i ≡ none)
    → ((a : ℕ) → s.cells a ≡ none) × ((h : ℕ) → s.handles h ≡ false)
no_leak s calls gone = (
  λ a. elim (Option-cases (s.cells a)) [ inl e ↦ e | inr (x, e) ↦ absurd (unowned a x e) ],
  λ h. elim (Bool-cases (s.handles h)) [
    | inl e ↦ absurd (unowned (o.holder h e).0 (some h) (o.holder h e).1)
    | inr e ↦ e
  ],
)
  where
    o : WellOwned s
    o = Lifetime-WellOwned calls no_clients-WellOwned

    unowned : (a : ℕ) (x : Option ℕ) → s.cells a ≢ some x
    unowned a x e =
        let client = o.owner a x e in absent a (sym client.1 ∙ ap impl_of (gone client.0))
