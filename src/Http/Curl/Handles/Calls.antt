-- ===== src/Http/Curl/Handles/Calls.antt =====
-- Each call on a client, from a store where each `Impl` has its one client.
use mathlib.Core.Path.{subst, fun_ext}
use forgeant.Prelude.{
  ℕ, ◌≡◌, refl, sym, ◌∙◌, ap, Bool, true, false, inl, inr, Option, none, some, Option-cases, arith,
}
use forgeant.Outcome.{Outcome, ok, throw, runtime_error}
use forgeant.Http.Curl.{Config}
use forgeant.Http.Curl.Handles.{
  Client, Store, M, update, release, ◌>>=◌, Call, creates, destroys, moves, assigns, posts,
  posts_async, use_client, construct, exec,
}
use forgeant.Http.Curl.Handles.Updates.{update-here, kept, update-update, update-same}
use forgeant.Http.Curl.Handles.Ownership.{Owned, Owned-drop, Owned-acquire}

abbrev pub impl_of : Option Client → Option ℕ
impl_of none = none
impl_of (some c) = c.impl

-- The `Impl` that the client at an address owns.
abbrev pub impl_at : (ℕ → Option Client) → ℕ → Option ℕ
impl_at clients i = impl_of (clients i)

abbrev pub WellOwned : Store → Type 0
WellOwned s = Owned (impl_at s.clients) s.cells s.handles

pub impl_at-update :
    (f : ℕ → Option Client) (i : ℕ) (c : Option Client)
    → impl_at (update f i c) ≡ update (impl_at f) i (impl_of c)
impl_at-update f i c = fun_ext λ q. ground arith

-- Ownership under other names of the same maps.
pub renamed :
    {f g : ℕ → Option ℕ} {cells kept : ℕ → Option (Option ℕ)} {handles : ℕ → Bool}
    → f ≡ g
    → cells ≡ kept
    → Owned f cells handles
    → Owned g kept handles
renamed {f = f} {kept = kept} {handles = handles} e d o =
    subst (λ x. Owned x kept handles) e (subst (λ c. Owned f c handles) d o)

release-some :
    (a h : ℕ) (s : Store)
    → s.cells a ≡ some (some h)
    → s.handles h ≡ true
    → release (some a) s
      ≡ some (tt, record s { cells = update s.cells a none; handles = update s.handles h false })
release-some a h s cell opened = rw (cell, ◌>>=◌) (rw (opened, ◌>>=◌) (rw (cell, ◌>>=◌)))

-- What `release` of the client's `Impl` leaves: the same clients, and an owner less.
pub record Released (i : ℕ) (c : Client) (s : Store) : Type 0 where
  pub after : Store
  pub runs : release c.impl s ≡ some (tt, after)
  pub same : after.clients ≡ s.clients
  pub owned : Owned (update (impl_at s.clients) i none) after.cells after.handles

pub release-Released :
    (i : ℕ) (c : Client) (s : Store) → s.clients i ≡ some c → WellOwned s → Released i c s
release-Released i c s here o = elim (Option-cases c.impl) [
  | inl e ↦ record {
    after = s;
    runs = rw e;
    same = refl;
    owned = renamed (sym (update-same (impl_at s.clients) i none (ap impl_of here ∙ e))) refl o;
  }
  | inr (a, e) ↦
      let found = o.alive i a (ap impl_of here ∙ e) in
      record {
        after = record s {
          cells = update s.cells a none;
          handles = update s.handles found.0 false;
        };
        runs = rw e (release-some a found.0 s found.1 found.2);
        same = refl;
        owned = Owned-drop i a found.0 (ap impl_of here ∙ e) found.1 o;
      }
]

-- No object is at `this`, and `new` and `curl_easy_init` give what is not in use.
abbrev pub CanMake : ℕ → ℕ → Option ℕ → Store → Type 0
CanMake this a handle s =
    (s.clients this ≡ none) × (s.cells a ≡ none) × ((h : ℕ) → handle ≡ some h → s.handles h ≡ false)

-- What the language and libcurl grant of a call: the object that is made is not there yet, every other
-- one is, and `new` and `curl_easy_init` give what is not in use. A client that was moved from has no
-- `Impl`, and must not post.
abbrev pub Allowed : Call → Store → Type 0
Allowed (creates this config a handle) s = CanMake this a handle s
Allowed (posts_async this config a handle) s = CanMake this a handle s
Allowed (destroys this) s = (c : Client) × (s.clients this ≡ some c)
Allowed (moves this other) s = (s.clients this ≡ none) × ((c : Client) × (s.clients other ≡ some c))
Allowed (assigns this other) s =
    ((c : Client) × (s.clients this ≡ some c)) × ((d : Client) × (s.clients other ≡ some d))
Allowed (posts this) s = (c : Client) × (s.clients this ≡ some c) × ((a : ℕ) × (c.impl ≡ some a))

-- No fault, and each `Impl` and each handle has its one owner afterwards.
abbrev pub IsSafe : M (Outcome (Unit {0})) → Store → Type 0
IsSafe m s = (r : Outcome (Unit {0})) × (t : Store) × (m s ≡ some (r, t)) × WellOwned t

-- The store with a new client.
abbrev pub made : ℕ → Config → ℕ → ℕ → Store → Store
made this config a h s = record {
  clients = update s.clients this (some (record { impl = some a; config = config }));
  cells = update (update s.cells a (some none)) a (some (some h));
  handles = update s.handles h true;
  global_init = true;
}

pub made-WellOwned :
    (this : ℕ) (config : Config) (a h : ℕ) (s : Store)
    → Allowed (creates this config a (some h)) s
    → WellOwned s
    → WellOwned (made this config a h s)
made-WellOwned this config a h s (unmade, unused, closed) o =
    renamed (sym (impl_at-update s.clients this _)) (sym (update-update s.cells a (some none) _))
      (Owned-acquire this a h (ap impl_of unmade) unused (closed h refl) o)

-- The store after a construction without a handle: the new `Impl` is deleted again.
abbrev pub unmade : ℕ → Store → Store
unmade a s = record s {
  cells = update (update (update s.cells a (some none)) a (some none)) a none;
  global_init = true;
}

pub construct-unmade :
    (this : ℕ) (config : Config) (a : ℕ) (s : Store)
    → construct this config a none s
      ≡ some (throw (runtime_error "failed to initialize curl handle"), unmade a s)
unfolding construct
construct-unmade this config a s =
    rw (update-here (update s.cells a (some none)) a (some none), ◌>>=◌)

pub unmade-WellOwned :
    (this : ℕ) (config : Config) (a : ℕ) (s : Store)
    → Allowed (creates this config a none) s
    → WellOwned s
    → WellOwned (unmade a s)
unmade-WellOwned this config a s (_, unused, _) o =
    renamed refl
      (sym (
        update-update (update s.cells a (some none)) a (some none) none
        ∙ update-update s.cells a (some none) none
        ∙ update-same s.cells a none unused))
      o

pub creates-IsSafe :
    (this : ℕ) (config : Config) (a : ℕ) (handle : Option ℕ) (s : Store)
    → Allowed (creates this config a handle) s
    → WellOwned s
    → IsSafe (exec (creates this config a handle)) s
unfolding exec
creates-IsSafe this config a (some h) s allowed o =
    (ok tt, made this config a h s, refl, made-WellOwned this config a h s allowed o)
creates-IsSafe this config a none s allowed o = (
  throw (runtime_error "failed to initialize curl handle"),
  unmade a s,
  construct-unmade this config a s,
  unmade-WellOwned this config a s allowed o,
)

pub destroys-IsSafe :
    (this : ℕ) (s : Store)
    → Allowed (destroys this) s
    → WellOwned s
    → IsSafe (exec (destroys this)) s
unfolding exec
destroys-IsSafe this s (c, here) o =
    let released = release-Released this c s here o in
    (
      ok tt,
      record released.after { clients = update released.after.clients this none },
      rw (here, ◌>>=◌) (rw (released.runs, ◌>>=◌)),
      renamed
          (ap (λ f. update (impl_at f) this none) (sym released.same)
            ∙ sym (impl_at-update released.after.clients this none))
          refl released.owned,
    )

-- A client that was not moved from has an open handle to post with.
pub use_client-WellOwned :
    (this : ℕ) (s : Store) → Allowed (posts this) s → WellOwned s → use_client this s ≡ some (tt, s)
unfolding use_client
use_client-WellOwned this s (c, here, (a, e)) o =
    let found = o.alive this a (ap impl_of here ∙ e) in
    rw (here, ◌>>=◌) (rw (e, ◌>>=◌) (rw (found.1, ◌>>=◌) (rw (found.2, ◌>>=◌))))

pub posts-IsSafe :
    (this : ℕ) (s : Store) → Allowed (posts this) s → WellOwned s → IsSafe (exec (posts this)) s
unfolding exec
posts-IsSafe this s allowed o =
    (ok tt, s, rw (use_client-WellOwned this s allowed o, ◌>>=◌) refl, o)
