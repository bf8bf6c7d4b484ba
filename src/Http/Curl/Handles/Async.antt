-- ===== src/Http/Curl/Handles/Async.antt =====
-- The client of `async_post`, which is made and destroyed by the thread that posts.
use forgeant.Prelude.{ℕ, ◌≡◌, refl, Option, none, some}
use forgeant.Outcome.{throw, runtime_error}
use forgeant.Http.Curl.{Config}
use forgeant.Http.Curl.Handles.{Client, Store, ◌>>=◌, posts_async, exec}
use forgeant.Http.Curl.Handles.Updates.{update-here}
use forgeant.Http.Curl.Handles.Calls.{
  WellOwned, Allowed, IsSafe, made, made-WellOwned, unmade, construct-unmade, unmade-WellOwned,
  destroys-IsSafe, use_client-WellOwned,
}

pub posts_async-IsSafe :
    (this : ℕ) (config : Config) (a : ℕ) (handle : Option ℕ) (s : Store)
    → Allowed (posts_async this config a handle) s
    → WellOwned s
    → IsSafe (exec (posts_async this config a handle)) s
unfolding exec
posts_async-IsSafe this config a (some h) s allowed o =
    let t = made this config a h s in
    let owned = made-WellOwned this config a h s allowed o in
    let client : Client = record { impl = some a; config = config } in
    let here : t.clients this ≡ some client = update-here s.clients this (some client) in
    let gone = destroys-IsSafe this t (client, here) owned in
    (
      gone.0,
      gone.1,
      rw (use_client-WellOwned this t (client, here, (a, refl)) owned, ◌>>=◌) gone.2,
      gone.3,
    )
posts_async-IsSafe this config a none s allowed o = (
  throw (runtime_error "failed to initialize curl handle"),
  unmade a s,
  rw (construct-unmade this config a s, ◌>>=◌) refl,
  unmade-WellOwned this config a s allowed o,
)
