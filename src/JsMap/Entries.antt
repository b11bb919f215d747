-- ===== src/JsMap/Entries.antt =====
-- The entries of a map as a list: reading each back, adding up what they hold, and the end of the
-- order of insertion.
use mlx_serving.Prelude.{
  ℕ, ◌+◌, ◌≡◌, ◌⊎◌, refl, ◌∙◌, false, none, some, [], ◌∷◌, ◌++◌, Eq, ◌==◌, ==_refl, ==-cases,
  ==_sym, inl, inr, arith, All, ap, subst,
}
use mlx_serving.JsMap.Defs.{JsMap, get, put, delete, keys}
use mlx_serving.JsMap.Laws.{Distinct, get-put, get-delete, get-delete_ne}

module _ {ℓ κ} {K : Type ℓ} {V : Type κ} ⦃e : Eq K⦄ where
  -- What a number that each value holds adds up to.
  abbrev pub total : (V → ℕ) → JsMap K V → ℕ
  total f [] = 0
  total f ((k, v) ∷ m) = f v + total f m

  -- Each of the entries is the one that the map has under its key.
  abbrev pub AreIn : JsMap K V → JsMap K V → Type κ
  AreIn entries m = All (λ p. get p.0 m ≡ some p.1) entries

  pub total-delete :
      (f : V → ℕ) (k : K) (m : JsMap K V) {v : V}
      → get k m ≡ some v
      → total f m ≡ f v + total f (delete k m)
  unfolding get delete
  total-delete f k [] h = cc
  total-delete f k ((j, w) ∷ m) {v} h = ground (arith, total-delete f k m {v = v})

  pub put_absent : (k : K) (v : V) (m : JsMap K V) → get k m ≡ none → put k v m ≡ m ++ (k, v) ∷ []
  unfolding get put
  put_absent k v [] h = refl
  put_absent k v ((j, w) ∷ m) h = ground (arith, put_absent k v m)

  pub total-append : (f : V → ℕ) (m n : JsMap K V) → total f (m ++ n) ≡ total f m + total f n
  total-append f [] n = omega arith
  total-append f ((k, v) ∷ m) n = omega (arith, total-append f m n)

  pub delete_head : (k : K) (v : V) (m : JsMap K V) → delete k ((k, v) ∷ m) ≡ m
  unfolding delete
  delete_head k v m = rw (==_refl k)

  pub get_head : (k : K) (v : V) (m : JsMap K V) → get k ((k, v) ∷ m) ≡ some v
  unfolding get
  get_head k v m = rw (==_refl k)

  pub get-middle :
      (k : K) (v : V) (before after : JsMap K V)
      → Distinct (before ++ (k, v) ∷ after)
      → get k (before ++ (k, v) ∷ after) ≡ some v
  unfolding get
  get-middle k v [] after u = get_head k v after
  get-middle k v ((j, w) ∷ before) after u = elim (==-cases j k) [
    | inl p ↦
        let found = get-middle k v before after u.1 in
        let missed = subst (λ i. get i (before ++ (k, v) ∷ after) ≡ none) p.1 u.0 in cc
    | inr p ↦ rw p.0 (get-middle k v before after u.1)
  ]

  pub delete-middle :
      (k : K) (v : V) (before after : JsMap K V)
      → Distinct (before ++ (k, v) ∷ after)
      → delete k (before ++ (k, v) ∷ after) ≡ before ++ after
  unfolding delete
  delete-middle k v [] after u = delete_head k v after
  delete-middle k v ((j, w) ∷ before) after u = elim (==-cases j k) [
    | inl p ↦
        let found = get-middle k v before after u.1 in
        let missed = subst (λ i. get i (before ++ (k, v) ∷ after) ≡ none) p.1 u.0 in cc
    | inr p ↦ rw p.0 (ap (λ m. (j, w) ∷ m) (delete-middle k v before after u.1))
  ]

  pub All-keys_ne : (k : K) (m : JsMap K V) → get k m ≡ none → All (λ p. (k == p.0) ≡ false) m
  unfolding get
  All-keys_ne k [] h = tt
  All-keys_ne k ((j, w) ∷ m) h = (ground (arith, ==_sym j k), All-keys_ne k m (ground arith))

  AreIn-cons :
      (k : K) (v : V) (entries m : JsMap K V)
      → All (λ p. (k == p.0) ≡ false) entries
      → AreIn entries m
      → AreIn entries ((k, v) ∷ m)
  unfolding get
  AreIn-cons k v [] m n a = tt
  AreIn-cons k v ((j, w) ∷ es) m n a = (ground arith, AreIn-cons k v es m n.1 a.1)

  -- Every entry of a map in which no key stands twice can be read back.
  pub AreIn-self : (m : JsMap K V) → Distinct m → AreIn m m
  AreIn-self [] d = tt
  AreIn-self ((k, v) ∷ m) d =
      (get_head k v m, AreIn-cons k v m m (All-keys_ne k m d.0) (AreIn-self m d.1))

  pub AreIn-delete :
      (k : K) (entries m : JsMap K V)
      → All (λ p. (k == p.0) ≡ false) entries
      → AreIn entries m
      → AreIn entries (delete k m)
  AreIn-delete k [] m n a = tt
  AreIn-delete k ((j, w) ∷ es) m n a = (get-delete_ne j k m n.0 ∙ a.0, AreIn-delete k es m n.1 a.1)

  pub total-put_same :
      (f : V → ℕ) (k : K) (v w : V) (m : JsMap K V)
      → get k m ≡ some v
      → f w ≡ f v
      → total f (put k w m) ≡ total f m
  unfolding get put
  total-put_same f k v w [] h q = cc
  total-put_same f k v w ((j, u) ∷ m) h q = ground (arith, total-put_same f k v w m)

  -- Where a value that is read after a write or a removal comes from.
  pub get-put_cases :
      (j k : K) (v : V) (m : JsMap K V) {x : V}
      → get j (put k v m) ≡ some x
      → ((k ≡ j) × (v ≡ x)) ⊎ (((k == j) ≡ false) × (get j m ≡ some x))
  get-put_cases j k v m h = elim (==-cases k j) [
    | inl i ↦ inl (i.1, ground (arith, get-put j k v m))
    | inr i ↦ inr (i.0, ground (arith, get-put j k v m))
  ]

  pub get-put_ne :
      (j k : K) (v : V) (m : JsMap K V) → (k == j) ≡ false → get j (put k v m) ≡ get j m
  get-put_ne j k v m h = ground (arith, get-put j k v m)

  pub get-delete_cases :
      (j k : K) (m : JsMap K V) {x : V}
      → Distinct m
      → get j (delete k m) ≡ some x
      → ((k == j) ≡ false) × (get j m ≡ some x)
  get-delete_cases j k m d h = ground (arith, get-delete j k m d)

  pub total-put :
      (f : V → ℕ) (k : K) (v w : V) (m : JsMap K V)
      → get k m ≡ some v
      → total f (put k w m) + f v ≡ total f m + f w
  unfolding get put
  total-put f k v w [] h = cc
  total-put f k v w ((j, u) ∷ m) h = ground (arith, total-put f k v w m)

  pub keys-put : (k : K) (v w : V) (m : JsMap K V) → get k m ≡ some v → keys (put k w m) ≡ keys m
  unfolding get put
  keys-put k v w [] h = cc
  keys-put k v w ((j, u) ∷ m) h = ground (arith, keys-put k v w m)
