-- ===== src/Core/PromptCache/Room.antt =====
-- The books of src/core/prompt-cache.ts through `set` and its loop.
use mlx_serving.Prelude.{
  ℕ, zero, suc, ◌≡◌, refl, ◌∙◌, Bool, true, false, Option, none, String, string_eq, if◌then◌else◌,
  ltb, length, arith, Bool-cases, Option-cases, inl, inr, List-cases,
}
use mlx_serving.JsMap.{get, get-delete, get-delete_self}
use mlx_serving.Core.PromptCache.{
  PromptCache, drop_entry, evict_lru, is_over, make_room, forget, new_entry, bytes_of, store,
  max_single_entry_bytes,
}
use mlx_serving.Core.PromptCache.Accounts.{
  IsValid, drop_entry-IsValid, insert-IsValid, evict_lru-IsValid,
}

module _ {R : Type 0} where
  -- What the loop leaves: no key is new, and it ends with `true` only if the entry fits.
  pub record Roomy (c : PromptCache R) (t b : ℕ) (r : PromptCache R × Bool) : Type 0 where
    pub valid : IsValid r.0
    pub fits : r.1 ≡ true → is_over r.0 t b ≡ false
    pub kept : r.0.config ≡ c.config
    pub absent : (j : String) → get j c.cache ≡ none → get j r.0.cache ≡ none

  pub config-evict_lru : (c : PromptCache R) → (evict_lru c).0.config ≡ c.config
  unfolding evict_lru drop_entry
  config-evict_lru c = ground arith

  pub absent-evict_lru :
      (c : PromptCache R) (j : String)
      → IsValid c
      → get j c.cache ≡ none
      → get j (evict_lru c).0.cache ≡ none
  unfolding evict_lru drop_entry
  absent-evict_lru c j v h = elim (List-cases c.cache) [
    | inl e ↦ rw (e, evict_lru) h
    | inr ((k, x), rest, e) ↦ ground (arith, get-delete j k c.cache v.distinct)
  ]

  pub make_room-Roomy :
      (fuel : ℕ) (c : PromptCache R) (t b : ℕ) → IsValid c → Roomy c t b (make_room fuel c t b)
  unfolding make_room
  make_room-Roomy zero c t b v = record {
    valid = v;
    fits = λ e. cc;
    kept = refl;
    absent = λ j h. h;
  }
  make_room-Roomy (suc fuel) c t b v =
      let v' = evict_lru-IsValid c v in
      elim (Bool-cases (is_over c t b)) [
        | inr n ↦
            rw (n, make_room) (record { valid = v; fits = λ _. n; kept = refl; absent = λ j h. h })
        | inl o ↦ elim (Bool-cases (evict_lru c).1) [
          | inr n ↦
              rw (o, n, make_room)
                (record {
                  valid = v';
                  fits = λ e. cc;
                  kept = config-evict_lru c;
                  absent = λ j h. absent-evict_lru c j v h;
                })
          | inl m ↦
              let r = make_room-Roomy fuel (evict_lru c).0 t b v' in
              rw (o, m, make_room)
                (record {
                  valid = r.valid;
                  fits = r.fits;
                  kept = r.kept ∙ config-evict_lru c;
                  absent = λ j h. r.absent j (absent-evict_lru c j v h);
                })
        ]
      ]

  pub forget-IsValid :
      (c : PromptCache R) (k : String)
      → IsValid c
      → IsValid (forget c k) × (get k (forget c k).cache ≡ none) × ((forget c k).config ≡ c.config)
  unfolding forget
  forget-IsValid c k v = elim (Option-cases (get k c.cache)) [
    | inl e ↦ rw (e, forget) (v, e, refl)
    | inr (x, e) ↦
        rw (e, forget)
          (
            drop_entry-IsValid k x c e v,
            unfold drop_entry in get-delete_self k c.cache v.distinct,
            unfold drop_entry in refl,
          )
  ]

  pub if-IsValid :
      (b : Bool) {c c' : PromptCache R}
      → (b ≡ true → IsValid c)
      → (b ≡ false → IsValid c')
      → IsValid (if b then c else c')
  if-IsValid true h h' = h refl
  if-IsValid false h h' = h' refl

  pub store-IsValid :
      (json_length : R → Option ℕ) (c : PromptCache R) (k : String) (response : R) (now : ℕ)
      → IsValid c
      → IsValid (store json_length c k response now)
  unfolding store
  store-IsValid json_length c k response now v =
      let x = new_entry c.config response (bytes_of (json_length response)) now in
      let c' = forget c k in
      let (v', absent, same) = forget-IsValid c k v in
      let r = make_room-Roomy (suc (length c'.cache)) c' x.tokens x.bytes v' in
      let room = make_room (suc (length c'.cache)) c' x.tokens x.bytes in
      if-IsValid c.config.enabled
        (λ _.
          if-IsValid (ltb max_single_entry_bytes x.bytes) (λ _. v)
            (λ _.
              if-IsValid room.1
                (λ e. insert-IsValid room.0 k x (r.absent k absent) (r.fits e) r.valid)
                (λ _. r.valid)))
        (λ _. v)
