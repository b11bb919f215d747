-- ===== src/Core/PromptCache/Restart.antt =====
-- Saving the prompt cache of src/core/prompt-cache.ts to its file, and constructing a cache from it.
use mlx_serving.Prelude.{
  ◌⊎◌, true, false, Option, some, none, List, if_true, if_both, Option-cases, Bool-cases, ℕ, ◌≤◌,
  ◌≡◌, refl, sym, ap, ◌∙◌, subst, not, String, ◌==◌, string_eq, inl, inr, filter_b, arith,
}
use mlx_serving.Core.PromptCache.{
  PersistenceConfig, PromptCacheConfig, CacheEntry, PromptCache, new, is_expired,
}
use mlx_serving.Core.PromptCache.Disk.{
  persistence_path, saved_entries, load_entries, save, load, construct,
}
use mlx_serving.Core.PromptCache.Accounts.{IsValid}
use mlx_serving.Core.PromptCache.Persistence.{
  Restored, saved_entries_lem, saved_entries-saved_entries, load_entries-saved_entries,
  load_entries-Restored,
}

-- Persistence is enabled and has a path.
abbrev pub IsOn : PromptCacheConfig → Type 0
IsOn config =
    (p : PersistenceConfig) × (config.persistence ≡ some p)
    × (p.enabled ≡ true)
    × ((p.path == "") ≡ false)

abbrev pub IsOff : PromptCacheConfig → Type 0
IsOff config =
    (config.persistence ≡ none)
    ⊎ ((p : PersistenceConfig) × (config.persistence ≡ some p)
        × ((p.enabled ≡ false) ⊎ ((p.path == "") ≡ true)))

persistence_path-cases :
    (config : PromptCacheConfig)
    → (IsOn config × ((path : String) × (persistence_path config ≡ some path)))
      ⊎ (IsOff config × (persistence_path config ≡ none))
unfolding persistence_path
persistence_path-cases config = elim (Option-cases config.persistence) [
  | inl e ↦ inr (inl e, rw (e, persistence_path) refl)
  | inr (p, e) ↦ elim (Bool-cases p.enabled) [
    | inr off ↦ inr (inr (p, e, inl off), ground arith)
    | inl on ↦ elim (Bool-cases (p.path == "")) [
      | inl empty ↦ inr (inr (p, e, inr empty), ground arith)
      | inr named ↦ inl ((p, e, on, named), (p.path, ground arith))
    ]
  ]
]

module _ {R D : Type 0} (parse : D → Option (List (String × CacheEntry R))) where
  pub construct-off :
      (config : PromptCacheConfig) (file : Option D) (now : ℕ)
      → persistence_path config ≡ none
      → construct parse config file now ≡ new config
  unfolding construct load new
  construct-off config file now off =
      if_both (λ c. c ≡ new config) config.enabled (rw (off, load) refl) refl

  load-written :
      (c : PromptCache R) (entries : List (String × CacheEntry R)) (text : D) (path : String)
      (now : ℕ)
      → persistence_path c.config ≡ some path
      → parse text ≡ some entries
      → load parse c (some text) now ≡ load_entries entries c now
  unfolding load
  load-written c entries text path now p e = rw (p, load) (rw e refl)

module _ {R D : Type 0} (stringify : List (String × CacheEntry R) → Option D)
    (parse : D → Option (List (String × CacheEntry R))) where
  -- Suppose that `JSON.parse` reads what `JSON.stringify` writes of cache entries, and that an enabled
  -- cache within its books is saved. With persistence on and a path, a cache of the same configuration
  -- that is constructed no earlier than that is within its books and holds the old one's entries that
  -- have not expired by then, in the same order and each under its key; or else `JSON.stringify`
  -- threw on the entries that had not expired, and the file is as it was before. Without persistence
  -- or a path the file is as it was before, and the constructor reads no file.
  pub construct-save :
      ((entries : List (String × CacheEntry R)) (text : D)
        → stringify entries ≡ some text
        → parse text ≡ some entries)
      → (c : PromptCache R) (file : Option D) (now later : ℕ) → IsValid c
      → c.config.enabled ≡ true
      → now ≤ later
      → (IsOn c.config
          × (Restored c later (construct parse c.config (save stringify c file now) later)
              ⊎ ((save stringify c file now ≡ file)
                  × (stringify (filter_b (λ p. not (is_expired now p.1)) c.cache) ≡ none))))
        ⊎ (IsOff c.config
            × (save stringify c file now ≡ file)
            × (construct parse c.config file later ≡ new c.config))
  unfolding save construct
  construct-save reads c file now later v on l = elim (persistence_path-cases c.config) [
    | inr (off, p) ↦ inr (off, rw (p, save) refl, construct-off parse c.config file later p)
    | inl (is_on, (path, p)) ↦ elim (Option-cases (stringify (saved_entries now c.cache))) [
      | inl e ↦ inl (
        is_on,
        inr (rw (p, save) (rw e refl), ap stringify (sym (saved_entries_lem now c.cache)) ∙ e),
      )
      | inr (text, e) ↦
          let saved = saved_entries now c.cache in
          let written : save stringify c file now ≡ some text = rw (p, save) (rw e refl) in
          let found =
            if_true _ (new c.config) on
            ∙ ap (λ f. load parse (new c.config) f later) written
            ∙ load-written parse (new c.config) saved text path later (unfold new in p)
                (reads saved text e)
            ∙ sym (load_entries-saved_entries saved (new c.config) later)
            ∙ ap (λ es. load_entries es (new c.config) later)
                (saved_entries-saved_entries now later c.cache l) in
          inl (is_on, inl (subst (Restored c later) (sym found) (load_entries-Restored c later v)))
    ]
  ]
