-- ===== src/Http/Curl/Handles.antt =====
-- src/http/curl_client.cpp: making, moving and destroying a `CurlHttpClient`. Objects are at addresses,
-- so that a client may be assigned to itself; a call that frees or reads what is not there is a fault.
pub mod Updates
pub mod Ownership
pub mod Calls
pub mod Moves
pub mod Async
pub mod Lifetimes
use forgeant.Prelude.{ℕ, String, Bool, true, false, Option, none, some, eqb, if◌then◌else◌}
use forgeant.Prelude.Int.{pos}
use forgeant.Outcome.{Outcome, ok, throw, runtime_error}
use forgeant.Http.Curl.{Config}

-- The members of a client: `impl_`, which may be null, and `config_`.
pub record Client : Type 0 where
  pub impl : Option ℕ
  pub config : Config

-- The clients, the `Impl` cells with their handle, and the handles of libcurl that are open.
pub record Store : Type 0 where
  pub clients : ℕ → Option Client
  pub cells : ℕ → Option (Option ℕ)
  pub handles : ℕ → Bool
  pub global_init : Bool

abbrev pub update : {A : Type 0} → (ℕ → A) → ℕ → A → ℕ → A
update f p v q = if eqb q p then v else f q

-- `none` is a fault.
abbrev pub M : Type 0 → Type 0
M A = Store → Option (A × Store)

abbrev pub pure : {A : Type 0} → A → M A
pure a s = some (a, s)

infixl 5 ◌>>=◌ ◌>>◌
abbrev pub ◌>>=◌ : {A B : Type 0} → M A → (A → M B) → M B
◌>>=◌ m f s = elim (m s) [ none ↦ none | some (a, t) ↦ f a t ]

abbrev pub ◌>>◌ : {A B : Type 0} → M A → M B → M B
m >> k = m >>= λ _. k

abbrev pub with_store : {A : Type 0} → Store → Option A → Option (A × Store)
with_store s none = none
with_store s (some a) = some (a, s)

-- The client at an address.
abbrev pub client_at : ℕ → M Client
client_at this s = with_store s (s.clients this)

abbrev pub put : ℕ → Option Client → M (Unit {0})
put this c s = some (tt, record s { clients = update s.clients this c })

-- `impl->handle`
abbrev pub read_handle : ℕ → M (Option ℕ)
read_handle a s = with_store s (s.cells a)

-- `new Impl`, at the address that the allocator gives
abbrev pub new_impl : ℕ → M (Unit {0})
new_impl a s = some (tt, record s { cells = update s.cells a (some none) })

-- `delete impl`
abbrev pub delete_impl : ℕ → M (Unit {0})
delete_impl a = do _ ← read_handle a; λ s. some (tt, record s { cells = update s.cells a none })

abbrev ensure_curl_initialized : M (Unit {0})
ensure_curl_initialized s = some (tt, record s { global_init = true })

-- `~CurlGlobalGuard()`, at the exit of the process if the guard was made.
abbrev pub at_exit : M (Unit {0})
at_exit s = some (tt, record s { global_init = false })

-- `impl_->handle = curl_easy_init()`, which gave `handle`, or null
abbrev easy_init : ℕ → Option ℕ → M (Unit {0})
easy_init a none s = some (tt, record s { cells = update s.cells a (some none) })
easy_init a (some h) s =
    some
      (tt, record s { cells = update s.cells a (some (some h)); handles = update s.handles h true })

-- `curl_easy_cleanup`
abbrev pub easy_cleanup : ℕ → M (Unit {0})
easy_cleanup h s =
    if s.handles h then some (tt, record s { handles = update s.handles h false }) else none

abbrev pub cleanup : Option ℕ → M (Unit {0})
cleanup none = pure tt
cleanup (some h) = easy_cleanup h

-- The `if (impl_ != nullptr)` of the destructor and of the assignment.
abbrev pub release : Option ℕ → M (Unit {0})
release none = pure tt
release (some a) = do handle ← read_handle a; cleanup handle; delete_impl a

abbrev after_init : ℕ → Config → ℕ → Option ℕ → M (Outcome (Unit {0}))
after_init this config a none = do
  delete_impl a
  pure (throw (runtime_error "failed to initialize curl handle"))
after_init this config a (some h) = do
  put this (some (record { impl = some a; config = config }))
  pure (ok tt)

-- `CurlHttpClient(config)` at `this`; `a` is where `new Impl` is, `handle` what libcurl opens.
unfoldable pub construct : ℕ → Config → ℕ → Option ℕ → M (Outcome (Unit {0}))
construct this config a handle = do
  new_impl a
  ensure_curl_initialized
  easy_init a handle
  after_init this config a handle

-- `CurlHttpClient()`
abbrev pub default_config : Config
default_config = record { connect_timeout = pos 30; transfer_timeout = pos 300 }

abbrev pub construct_default : ℕ → ℕ → Option ℕ → M (Outcome (Unit {0}))
unfolding construct
construct_default this = construct this default_config

unfoldable pub destroy : ℕ → M (Unit {0})
destroy this = do client ← client_at this; release client.impl; put this none

-- `other.impl_ = nullptr`
abbrev pub moved : Client → Client
moved other = record other { impl = none }

unfoldable pub move_construct : ℕ → ℕ → M (Unit {0})
move_construct this other = do
  from ← client_at other
  put this (some from)
  put other (some (moved from))

-- `operator=(CurlHttpClient&&)`
unfoldable pub move_assign : ℕ → ℕ → M (Unit {0})
move_assign this other = if eqb this other then pure tt else do
  client ← client_at this
  release client.impl
  from ← client_at other
  put this (some from)
  put other (some (moved from))

abbrev pub fault : {A : Type 0} → M A
fault s = none

abbrev pub deref : Option ℕ → M (Option ℕ)
deref none = fault
deref (some a) = read_handle a

-- A call of libcurl on a handle that must be open.
abbrev pub use_handle : Option ℕ → M (Unit {0})
use_handle none s = none
use_handle (some h) s = if s.handles h then some (tt, s) else none

-- `impl_->handle`, which `post` and `post_stream` give to `perform_post`, and its use there.
unfoldable pub use_client : ℕ → M (Unit {0})
use_client this = do client ← client_at this; handle ← deref client.impl; use_handle handle

abbrev pub returns : M (Unit {0}) → M (Outcome (Unit {0}))
returns m = m >>= λ _. pure (ok tt)

-- The lambda of `async_post`, whose client lives at `this` while it runs: whether the post returns or
-- throws, the client is destroyed behind it.
abbrev after_construct : ℕ → Outcome (Unit {0}) → M (Outcome (Unit {0}))
unfolding use_client destroy
after_construct this (ok _) = do use_client this; returns (destroy this)
after_construct this (throw e) = pure (throw e)

unfoldable pub async_task : ℕ → Config → ℕ → Option ℕ → M (Outcome (Unit {0}))
unfolding construct after_construct
async_task this config a handle = construct this config a handle >>= after_construct this

-- A call on the client at the first address; `posts_async` stands for what its thread does with a client
-- of its own.
pub data Call : Type 0 where
  creates : ℕ → Config → ℕ → Option ℕ → Call
  destroys : ℕ → Call
  moves : ℕ → ℕ → Call
  assigns : ℕ → ℕ → Call
  posts : ℕ → Call
  posts_async : ℕ → Config → ℕ → Option ℕ → Call

unfoldable pub exec : Call → M (Outcome (Unit {0}))
unfolding construct destroy move_construct move_assign use_client async_task
exec (creates this config a handle) = construct this config a handle
exec (destroys this) = returns (destroy this)
exec (moves this other) = returns (move_construct this other)
exec (assigns this other) = returns (move_assign this other)
exec (posts this) = returns (use_client this)
exec (posts_async this config a handle) = async_task this config a handle
