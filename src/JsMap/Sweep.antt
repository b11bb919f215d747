-- ===== src/JsMap/Sweep.antt =====
-- The loop `for (const [k, v] of map.entries()) { if (p(v)) { map.delete(k); removed++; } }`, which
-- removes from a map while it walks through the map's entries.
use mlx_serving.Prelude.{
  ℕ, ◌+◌, ◌≡◌, ◌≢◌, refl, ap, sym, ◌∙◌, subst, Bool, not, Option, none, some, [], ◌∷◌, ◌++◌, Eq,
  ◌==◌, if◌then◌else◌, Option-cases, ==_refl, length, arith, filter_b, Bool-cases, inl, inr,
}
use mathlib.Core.List.{append_assoc}
use mlx_serving.JsMap.Defs.{JsMap, get, delete}
use mlx_serving.JsMap.Laws.{
  Distinct, get-filter_b_kept, get-filter_b_dropped, get-filter_b-none, filter_b-Distinct,
}

abbrev pub unless {ℓ} : {V : Type ℓ} → (V → Bool) → Option V → Option V
unless p none = none
unless p (some v) = if p v then none else some v

module _ {ℓ κ} {K : Type ℓ} {V : Type κ} ⦃e : Eq K⦄ where
  unfoldable pub sweep_from : (V → Bool) → JsMap K V → JsMap K V → ℕ → JsMap K V × ℕ
  sweep_from p [] m removed = (m, removed)
  sweep_from p ((k, v) ∷ entries) m removed =
      sweep_from p entries (if p v then delete k m else m) (if p v then removed + 1 else removed)

  unfoldable pub sweep : (V → Bool) → JsMap K V → JsMap K V × ℕ
  unfolding sweep_from
  sweep p m = sweep_from p m m 0

  abbrev pub stays : (V → Bool) → K × V → Bool
  stays p x = not (p x.1)

  get-append_ne_none :
      (k : K) (v : V) (pre rest : JsMap K V) → get k (pre ++ ((k, v) ∷ rest)) ≢ none
  unfolding get
  get-append_ne_none k v [] rest h = ground (arith, ==_refl k)
  get-append_ne_none k v ((j, w) ∷ pre) rest h = ground (arith, get-append_ne_none k v pre rest)

  get-append_left :
      (k : K) (v : V) (pre rest : JsMap K V) → Distinct (pre ++ ((k, v) ∷ rest)) → get k pre ≡ none
  unfolding get
  get-append_left k v [] rest d = refl
  get-append_left k v ((j, w) ∷ pre) rest d = elim (Bool-cases (j == k)) [
    | inl h ↦ absurd (
        get-append_ne_none k v pre rest
          (subst (λ t. get t (pre ++ ((k, v) ∷ rest)) ≡ none) ((e.test_iff j k).0 h) d.0))
    | inr h ↦ rw h (get-append_left k v pre rest d.1)
  ]

  delete-append :
      (k : K) (v : V) (pre rest : JsMap K V)
      → get k pre ≡ none
      → delete k (pre ++ ((k, v) ∷ rest)) ≡ pre ++ rest
  unfolding get delete
  delete-append k v [] rest h = ground (arith, ==_refl k)
  delete-append k v ((j, w) ∷ pre) rest h = ground (arith, delete-append k v pre rest)

  get-append_none :
      (k : K) (pre rest : JsMap K V) → get k pre ≡ none → get k (pre ++ rest) ≡ get k rest
  unfolding get
  get-append_none k [] rest h = refl
  get-append_none k ((j, w) ∷ pre) rest h = ground (arith, get-append_none k pre rest)

  get-none-append : (k : K) (pre rest : JsMap K V) → get k (pre ++ rest) ≡ none → get k rest ≡ none
  unfolding get
  get-none-append k [] rest h = h
  get-none-append k ((j, w) ∷ pre) rest h = ground (arith, get-none-append k pre rest)

  get-none-skip :
      (k j : K) (v : V) (pre rest : JsMap K V)
      → get k (pre ++ ((j, v) ∷ rest)) ≡ none
      → get k (pre ++ rest) ≡ none
  unfolding get
  get-none-skip k j v [] rest h = ground arith
  get-none-skip k j v ((i, w) ∷ pre) rest h = ground (arith, get-none-skip k j v pre rest)

  Distinct-skip :
      (k : K) (v : V) (pre rest : JsMap K V)
      → Distinct (pre ++ ((k, v) ∷ rest))
      → Distinct (pre ++ rest)
  Distinct-skip k v [] rest d = d.1
  Distinct-skip k v ((j, w) ∷ pre) rest d =
      (get-none-skip j k v pre rest d.0, Distinct-skip k v pre rest d.1)

  sweep_from_lem :
      (p : V → Bool) (pre rest : JsMap K V) (n : ℕ)
      → Distinct (pre ++ rest)
      → (sweep_from p rest (pre ++ rest) n).0 ≡ pre ++ filter_b (stays p) rest
  unfolding sweep_from
  sweep_from_lem p pre [] n d = refl
  sweep_from_lem p pre ((k, v) ∷ rest) n d = elim (Bool-cases (p v)) [
    | inl h ↦
        rw (h, sweep_from)
          (ap (λ t. (sweep_from p rest t (n + 1)).0)
              (delete-append k v pre rest (get-append_left k v pre rest d))
            ∙ sweep_from_lem p pre rest (n + 1) (Distinct-skip k v pre rest d))
    | inr h ↦
        rw (h, sweep_from)
          (ap (λ t. (sweep_from p rest t n).0) (sym regroup)
            ∙ sweep_from_lem p (pre ++ (k, v) ∷ []) rest n (subst Distinct (sym regroup) d)
            ∙ append_assoc pre ((k, v) ∷ []) (filter_b (stays p) rest))
  ]
    where
      regroup : (pre ++ (k, v) ∷ []) ++ rest ≡ pre ++ ((k, v) ∷ rest)
      regroup = append_assoc pre ((k, v) ∷ []) rest

  -- The loop leaves the entries that fail the test, in their order.
  pub sweep_lem : (p : V → Bool) (m : JsMap K V) → Distinct m → (sweep p m).0 ≡ filter_b (stays p) m
  unfolding sweep
  sweep_lem p m d = sweep_from_lem p [] m 0 d

  -- It counts what it removes.
  sweep_from-count :
      (p : V → Bool) (entries m : JsMap K V) (n : ℕ)
      → (sweep_from p entries m n).1 + length (filter_b (stays p) entries) ≡ n + length entries
  unfolding sweep_from
  sweep_from-count p [] m n = omega arith
  sweep_from-count p ((k, v) ∷ entries) m n =
      ground
        (arith, sweep_from-count p entries (delete k m) (n + 1), sweep_from-count p entries m n)

  pub sweep-count :
      (p : V → Bool) (m : JsMap K V) → Distinct m → (sweep p m).1 + length (sweep p m).0 ≡ length m
  unfolding sweep
  sweep-count p m d = omega (arith, sweep_from-count p m m 0, ap (λ l. length l) (sweep_lem p m d))

  -- What a read returns after the loop.
  pub get-sweep :
      (k : K) (p : V → Bool) (m : JsMap K V) → Distinct m → get k (sweep p m).0 ≡ unless p (get k m)
  get-sweep k p m d = elim (Option-cases (get k m)) [
    | inl h ↦
        ap (get k) (sweep_lem p m d) ∙ get-filter_b-none k (stays p) m h ∙ ap (unless p) (sym h)
    | inr (v, h) ↦ elim (Bool-cases (p v)) [
      | inl q ↦
          ap (get k) (sweep_lem p m d)
          ∙ ground (arith, get-filter_b_dropped k (stays p) m {v = v} d)
      | inr q ↦
          ap (get k) (sweep_lem p m d) ∙ ground (arith, get-filter_b_kept k (stays p) m {v = v})
    ]
  ]

  pub sweep-Distinct : (p : V → Bool) (m : JsMap K V) → Distinct m → Distinct (sweep p m).0
  sweep-Distinct p m d = subst Distinct (sym (sweep_lem p m d)) (filter_b-Distinct (stays p) m d)
