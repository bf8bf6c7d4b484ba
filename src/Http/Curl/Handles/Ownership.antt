-- ===== src/Http/Curl/Handles/Ownership.antt =====
-- Which client owns which `Impl` and which handle, through acquiring, dropping and moving.
use forgeant.Prelude.{
  ℕ, ◌≡◌, ◌≢◌, sym, ◌∙◌, ap, Bool, true, false, ◌⊎◌, inl, inr, Option, none, some,
}
use forgeant.Http.Curl.Handles.{update}
use forgeant.Http.Curl.Handles.Updates.{
  update-here, update-there, update-cases, kept, compare_cases, some_injective,
}

module _ (impl : ℕ → Option ℕ) (cells : ℕ → Option (Option ℕ)) (handles : ℕ → Bool) where
  -- Each `Impl` has one client, each client's `Impl` is there with an open handle, and each open
  -- handle is in one `Impl`.
  pub record Owned : Type 0 where
    pub alive :
        (i a : ℕ) → impl i ≡ some a → (h : ℕ) × (cells a ≡ some (some h)) × (handles h ≡ true)
    pub single : (i j a : ℕ) → impl i ≡ some a → impl j ≡ some a → i ≡ j
    pub owner : (a : ℕ) (o : Option ℕ) → cells a ≡ some o → (i : ℕ) × (impl i ≡ some a)
    pub holder : (h : ℕ) → handles h ≡ true → (a : ℕ) × (cells a ≡ some (some h))
    pub apart : (a b h : ℕ) → cells a ≡ some (some h) → cells b ≡ some (some h) → a ≡ b

module _ {impl : ℕ → Option ℕ} {cells : ℕ → Option (Option ℕ)} {handles : ℕ → Bool} where
  -- The handle of an `Impl` is open.
  Owned-open : (a h : ℕ) → cells a ≡ some (some h) → Owned impl cells handles → handles h ≡ true
  Owned-open a h cell o =
      let client = o.owner a (some h) cell in
      let found = o.alive client.0 a client.1 in
      ap handles
        (some_injective h found.0 (some_injective (some h) (some found.0) (sym cell ∙ found.1)))
      ∙ found.2

  pub Owned-drop :
      (i a h : ℕ)
      → impl i ≡ some a
      → cells a ≡ some (some h)
      → Owned impl cells handles
      → Owned (update impl i none) (update cells a none) (update handles h false)
  Owned-drop i a h here cell o = record {
    alive = λ j b e.
        let was = kept impl i j b e in
        let found = o.alive j b was.1 in
        let b_a : b ≢ a = λ same. was.0 (o.single j i a (was.1 ∙ ap some same) here) in
        (
          found.0,
          update-there cells a none b b_a ∙ found.1,
          update-there handles h false found.0
                (λ same. b_a (o.apart b a h (found.1 ∙ ap (λ k. some (some k)) same) cell))
              ∙ found.2,
        );
    single = λ j k b e f. o.single j k b (kept impl i j b e).1 (kept impl i k b f).1;
    owner = λ b x e.
        let was = kept cells a b x e in
        let client = o.owner b x was.1 in
        (
          client.0,
          update-there impl i none client.0
                (λ same. was.0 (some_injective b a (sym client.1 ∙ ap impl same ∙ here)))
              ∙ client.1,
        );
    holder = λ k e. elim (update-cases handles h false k true e) [
      | inl (_, bad) ↦ cc
      | inr (other, opened) ↦
          let found = o.holder k opened in
          (
            found.0,
            update-there cells a none found.0 (λ same. other (
                  some_injective k h
                    (some_injective (some k) (some h) (sym found.1 ∙ ap cells same ∙ cell))))
                ∙ found.1,
          )
    ];
    apart = λ b c k e f. o.apart b c k (kept cells a b (some k) e).1 (kept cells a c (some k) f).1;
  }

  pub Owned-acquire :
      (i a h : ℕ)
      → impl i ≡ none
      → cells a ≡ none
      → handles h ≡ false
      → Owned impl cells handles
      → Owned (update impl i (some a)) (update cells a (some (some h))) (update handles h true)
  Owned-acquire i a h no_client no_cell closed o = record {
    alive = λ j b e. elim (update-cases impl i (some a) j (some b) e) [
      | inl (_, same) ↦ (
        h,
        ap (update cells a (some (some h))) (sym (some_injective a b same))
            ∙ update-here cells a (some (some h)),
        update-here handles h true,
      )
      | inr (_, was) ↦
          let found = o.alive j b was in
          (
            found.0,
            new_cell b (some found.0) found.1,
            update-there handles h true found.0
                  (λ same. true_false (sym found.2 ∙ ap handles same ∙ closed))
                ∙ found.2,
          )
    ];
    single = λ j k b e f. elim (update-cases impl i (some a) j (some b) e) [
      | inl (one, same) ↦ elim (update-cases impl i (some a) k (some b) f) [
        | inl (two, _) ↦ one ∙ sym two
        | inr (_, was) ↦ absurd (fresh_cell k b was (some_injective a b same))
      ]
      | inr (_, was) ↦ elim (update-cases impl i (some a) k (some b) f) [
        | inl (_, same) ↦ absurd (fresh_cell j b was (some_injective a b same))
        | inr (_, two) ↦ o.single j k b was two
      ]
    ];
    owner = λ b x e. elim (update-cases cells a (some (some h)) b (some x) e) [
      | inl (same, _) ↦ (i, update-here impl i (some a) ∙ ap some (sym same))
      | inr (_, was) ↦
          let client = o.owner b x was in
          (
            client.0,
            update-there impl i (some a) client.0
                  (λ same. some_none b (sym client.1 ∙ ap impl same ∙ no_client))
                ∙ client.1,
          )
    ];
    holder = λ k e. elim (update-cases handles h true k true e) [
      | inl (same, _) ↦
          (a, update-here cells a (some (some h)) ∙ ap (λ x. some (some x)) (sym same))
      | inr (_, was) ↦ let found = o.holder k was in (found.0, new_cell found.0 (some k) found.1)
    ];
    apart = λ b c k e f. elim (update-cases cells a (some (some h)) b (some (some k)) e) [
      | inl (one, same) ↦ elim (update-cases cells a (some (some h)) c (some (some k)) f) [
        | inl (two, _) ↦ one ∙ sym two
        | inr (_, was) ↦ absurd (fresh_handle c k was same)
      ]
      | inr (_, was) ↦ elim (update-cases cells a (some (some h)) c (some (some k)) f) [
        | inl (_, same) ↦ absurd (fresh_handle b k was same)
        | inr (_, two) ↦ o.apart b c k was two
      ]
    ];
  }
    where
      true_false : true ≢ false
      true_false e = cc

      some_none : {A : Type 0} (x : A) → some x ≢ none
      some_none x e = cc

      new_cell :
          (b : ℕ) (x : Option ℕ) → cells b ≡ some x → update cells a (some (some h)) b ≡ some x
      new_cell b x e =
          update-there cells a (some (some h)) b
            (λ same. some_none x (sym e ∙ ap cells same ∙ no_cell))
          ∙ e

      fresh_cell : (k b : ℕ) → impl k ≡ some b → a ≢ b
      fresh_cell k b was same =
          some_none (some (o.alive k b was).0)
            (sym (o.alive k b was).1 ∙ ap cells (sym same) ∙ no_cell)

      fresh_handle : (c k : ℕ) → cells c ≡ some (some k) → some (some h) ≢ some (some k)
      fresh_handle c k was same = true_false (
          sym (Owned-open c k was o)
          ∙ ap handles (sym (some_injective h k (some_injective (some h) (some k) same)))
          ∙ closed)

  pub Owned-move :
      (i j : ℕ)
      → i ≢ j
      → impl i ≡ none
      → Owned impl cells handles
      → Owned (update (update impl i (impl j)) j none) cells handles
  Owned-move i j apart empty o = record {
    alive = λ k a e. elim (origin k a e) [
      | inl (_, was) ↦ o.alive j a was
      | inr (_, was) ↦ o.alive k a was
    ];
    single = λ k l a e f. elim (origin k a e) [
      | inl (here, one) ↦ elim (origin l a f) [
        | inl (two, _) ↦ here ∙ sym two
        | inr (other, two) ↦ absurd (other (o.single l j a two one))
      ]
      | inr (other, one) ↦ elim (origin l a f) [
        | inl (_, two) ↦ absurd (other (o.single k j a one two))
        | inr (_, two) ↦ o.single k l a one two
      ]
    ];
    owner = λ a x e.
        let client = o.owner a x e in
        elim (compare_cases client.0 j) [
          | inl same ↦ (
            i,
            update-there (update impl i (impl j)) j none i apart
                ∙ update-here impl i (impl j)
                ∙ ap impl (sym same)
                ∙ client.1,
          )
          | inr other ↦ (
            client.0,
            update-there (update impl i (impl j)) j none client.0 other
                ∙ update-there impl i (impl j) client.0
                    (λ same. some_none a (sym client.1 ∙ ap impl same ∙ empty))
                ∙ client.1,
          )
        ];
    holder = o.holder;
    apart = o.apart;
  }
    where
      some_none : (x : ℕ) → some x ≢ none
      some_none x e = cc

      -- Where a client has its `Impl` from.
      origin :
          (k a : ℕ)
          → update (update impl i (impl j)) j none k ≡ some a
          → ((k ≡ i) × (impl j ≡ some a)) ⊎ ((k ≢ j) × (impl k ≡ some a))
      origin k a e =
          let was = kept (update impl i (impl j)) j k a e in
          elim (update-cases impl i (impl j) k (some a) was.1) [
            | inl h ↦ inl h
            | inr (_, h) ↦ inr (was.0, h)
          ]
