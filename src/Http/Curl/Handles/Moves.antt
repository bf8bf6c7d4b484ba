-- ===== src/Http/Curl/Handles/Moves.antt =====
-- Move construction and move assignment, from a store where each `Impl` has its one client.
use forgeant.Prelude.{ℕ, ◌≡◌, ◌≢◌, refl, sym, ◌∙◌, ap, inl, inr, Option, none, some}
use forgeant.Outcome.{ok}
use forgeant.Http.Curl.Handles.{Client, Store, update, moved, ◌>>=◌, moves, assigns, exec}
use forgeant.Http.Curl.Handles.Updates.{
  update-here, update-there, compare_cases, absent, update-update, update-same, eqb_same, eqb_apart,
}
use forgeant.Http.Curl.Handles.Ownership.{Owned, Owned-move}
use forgeant.Http.Curl.Handles.Calls.{
  impl_of, impl_at, impl_at-update, renamed, release-Released, WellOwned, Allowed, IsSafe,
}

-- The end of both moves: `this` takes what `other` has.
take-WellOwned :
    (this other : ℕ) (d : Client) (s : Store)
    → this ≢ other
    → s.clients other ≡ some d
    → Owned (update (impl_at s.clients) this none) s.cells s.handles
    → Owned
        (impl_at (update (update s.clients this (some d)) other (some (moved d))))
        s.cells
        s.handles
take-WellOwned this other d s apart there o =
    renamed
      (ap (λ v. update (update rest this v) other none) left
        ∙ ap (λ g. update g other none) (update-update (impl_at s.clients) this none d.impl)
        ∙ sym (
            impl_at-update (update s.clients this (some d)) other (some (moved d))
            ∙ ap (λ g. update g other none) (impl_at-update s.clients this (some d))))
      refl (Owned-move this other apart (update-here (impl_at s.clients) this none) o)
  where
    rest : ℕ → Option ℕ
    rest = update (impl_at s.clients) this none

    left : rest other ≡ d.impl
    left =
        update-there (impl_at s.clients) this none other (λ same. apart (sym same))
        ∙ ap impl_of there

pub moves-IsSafe :
    (this other : ℕ) (s : Store)
    → Allowed (moves this other) s
    → WellOwned s
    → IsSafe (exec (moves this other)) s
unfolding exec
moves-IsSafe this other s (unmade, (d, there)) o = (
  ok tt,
  record s { clients = update (update s.clients this (some d)) other (some (moved d)) },
  rw (there, ◌>>=◌),
  take-WellOwned this other d s (λ same. absent d (sym there ∙ ap s.clients (sym same) ∙ unmade))
      there (renamed (sym (update-same (impl_at s.clients) this none (ap impl_of unmade))) refl o),
)

pub assigns-IsSafe :
    (this other : ℕ) (s : Store)
    → Allowed (assigns this other) s
    → WellOwned s
    → IsSafe (exec (assigns this other)) s
unfolding exec
assigns-IsSafe this other s ((c, here), (d, there)) o = elim (compare_cases this other) [
  | inl same ↦ (ok tt, s, rw (same, eqb_same other) refl, o)
  | inr apart ↦
      let released = release-Released this c s here o in
      let still = ap (λ f. f other) released.same ∙ there in
      (
        ok tt,
        record released.after {
          clients = update (update released.after.clients this (some d)) other (some (moved d));
        },
        rw (eqb_apart this other apart)
            (rw (here, ◌>>=◌) (rw (released.runs, ◌>>=◌) (rw (still, ◌>>=◌)))),
        take-WellOwned this other d released.after apart still (
            renamed (ap (λ f. update (impl_at f) this none) (sym released.same)) refl
              released.owned),
      )
]
