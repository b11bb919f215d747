-- ===== src/JsMap/Laws.antt =====
-- What a read returns after a write or a removal, and that no key stands twice.
use mlx_serving.Prelude.{
  suc, ◌≡◌, refl, inl, inr, Bool, true, false, ◌||◌, none, some, List, [], ◌∷◌, ◌++◌, Eq, ◌==◌,
  if◌then◌else◌, ==-cases, ==_refl, length, arith, filter_b, subst, sym,
}
use mlx_serving.JsMap.Defs.{JsMap, get, put, delete, has, includes, add}

module _ {ℓ κ} {K : Type ℓ} {V : Type κ} ⦃e : Eq K⦄ where
  pub get-put :
      (j k : K) (v : V) (m : JsMap K V) → get j (put k v m) ≡ (if k == j then some v else get j m)
  unfolding get put
  get-put j k v [] = refl
  get-put j k v ((i, w) ∷ m) =
      ground (arith, e.test_iff i k, e.test_iff i j, e.test_iff k j, get-put j k v m)

  pub get-put_self : (k : K) (v : V) (m : JsMap K V) → get k (put k v m) ≡ some v
  get-put_self k v m = ground (arith, get-put k k v m, ==_refl k)

  -- No key stands twice.
  abbrev pub Distinct : JsMap K V → Type κ
  Distinct [] = Unit
  Distinct ((k, v) ∷ m) = (get k m ≡ none) × Distinct m

  pub put-Distinct : (k : K) (v : V) (m : JsMap K V) → Distinct m → Distinct (put k v m)
  unfolding put get
  put-Distinct k v [] d = (refl, tt)
  put-Distinct k v ((i, w) ∷ m) d = elim (==-cases i k) [
    | inl p ↦ rw p.0 d
    | inr p ↦
        rw p.0
          (ground (arith, get-put i k v m, e.test_iff k i, e.test_iff i k), put-Distinct k v m d.1)
  ]

  pub get-delete_ne : (j k : K) (m : JsMap K V) → (k == j) ≡ false → get j (delete k m) ≡ get j m
  unfolding get delete
  get-delete_ne j k [] h = refl
  get-delete_ne j k ((i, w) ∷ m) h =
      ground (arith, e.test_iff i k, e.test_iff i j, e.test_iff k j, get-delete_ne j k m h)

  pub get-delete_self : (k : K) (m : JsMap K V) → Distinct m → get k (delete k m) ≡ none
  unfolding get delete
  get-delete_self k [] d = refl
  get-delete_self k ((i, w) ∷ m) d = ground (arith, e.test_iff i k, get-delete_self k m d.1)

  pub get-delete :
      (j k : K) (m : JsMap K V)
      → Distinct m
      → get j (delete k m) ≡ (if k == j then none else get j m)
  get-delete j k m d = elim (==-cases k j) [
    | inl p ↦ ground (arith, get-delete_self k m d)
    | inr p ↦ rw p.0 (get-delete_ne j k m p.0)
  ]

  pub delete-Distinct : (k : K) (m : JsMap K V) → Distinct m → Distinct (delete k m)
  unfolding delete get
  delete-Distinct k [] d = tt
  delete-Distinct k ((i, w) ∷ m) d = elim (==-cases i k) [
    | inl p ↦ rw p.0 d.1
    | inr p ↦ rw p.0 (
      ground (arith, get-delete_ne i k m, e.test_iff k i, e.test_iff i k),
      delete-Distinct k m d.1,
    )
  ]

  pub delete_absent : (k : K) (m : JsMap K V) → get k m ≡ none → delete k m ≡ m
  unfolding delete get
  delete_absent k [] h = refl
  delete_absent k ((i, w) ∷ m) h = ground (arith, delete_absent k m)

  pub length-delete :
      (k : K) (m : JsMap K V) → has k m ≡ true → length m ≡ suc (length (delete k m))
  unfolding delete get
  length-delete k [] h = cc
  length-delete k ((i, w) ∷ m) h = ground (arith, length-delete k m)

  pub length-put_new :
      (k : K) (v : V) (m : JsMap K V) → has k m ≡ false → length (put k v m) ≡ suc (length m)
  unfolding put get
  length-put_new k v [] h = refl
  length-put_new k v ((i, w) ∷ m) h = ground (arith, length-put_new k v m)

  pub length-put_old :
      (k : K) (v : V) (m : JsMap K V) → has k m ≡ true → length (put k v m) ≡ length m
  unfolding put get
  length-put_old k v [] h = cc
  length-put_old k v ((i, w) ∷ m) h = ground (arith, length-put_old k v m)

  -- Removing the entries that fail a test leaves the others readable.
  pub get-filter_b-none :
      (k : K) (p : K × V → Bool) (m : JsMap K V) → get k m ≡ none → get k (filter_b p m) ≡ none
  unfolding get
  get-filter_b-none k p [] h = refl
  get-filter_b-none k p ((i, w) ∷ m) h = ground (arith, get-filter_b-none k p m)

  pub get-filter_b_kept :
      (k : K) (p : K × V → Bool) (m : JsMap K V) {v : V}
      → get k m ≡ some v
      → p (k, v) ≡ true
      → get k (filter_b p m) ≡ some v
  unfolding get
  get-filter_b_kept k p [] h q = cc
  get-filter_b_kept k p ((i, w) ∷ m) {v} h q = elim (==-cases i k) [
    | inl r ↦
        subst (λ t. get k (filter_b p ((t, w) ∷ m)) ≡ some v) (sym r.1) (ground (arith, ==_refl k))
    | inr r ↦ ground (arith, get-filter_b_kept k p m {v = v})
  ]

  pub get-filter_b_dropped :
      (k : K) (p : K × V → Bool) (m : JsMap K V) {v : V}
      → Distinct m
      → get k m ≡ some v
      → p (k, v) ≡ false
      → get k (filter_b p m) ≡ none
  unfolding get
  get-filter_b_dropped k p [] d h q = cc
  get-filter_b_dropped k p ((i, w) ∷ m) {v} d h q = elim (==-cases i k) [
    | inl r ↦ ground (arith, e.test_iff i k, get-filter_b-none i p m d.0)
    | inr r ↦ ground (arith, get-filter_b_dropped k p m {v = v} d.1)
  ]

  pub filter_b-Distinct : (p : K × V → Bool) (m : JsMap K V) → Distinct m → Distinct (filter_b p m)
  unfolding get
  filter_b-Distinct p [] d = tt
  filter_b-Distinct p ((i, w) ∷ m) d =
      ground (arith, filter_b-Distinct p m d.1, get-filter_b-none i p m d.0)

module _ {ℓ} {A : Type ℓ} ⦃e : Eq A⦄ where
  pub includes-append :
      (xs ys : List A) (a : A) → includes (xs ++ ys) a ≡ (includes xs a || includes ys a)
  includes-append [] ys a = refl
  includes-append (x ∷ xs) ys a = ground (arith, includes-append xs ys a)

  pub includes-add : (a b : A) (xs : List A) → includes (add a xs) b ≡ (a == b || includes xs b)
  unfolding add
  includes-add a b xs = elim (==-cases a b) [
    | inl p ↦ ground (arith, includes-append xs (a ∷ []) b)
    | inr p ↦ ground (arith, includes-append xs (a ∷ []) b)
  ]
