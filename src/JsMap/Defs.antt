-- ===== src/JsMap/Defs.antt =====
-- The operations of `Map` and `Set` that the components call.
use mlx_serving.Prelude.{
  Bool, false, ◌||◌, Option, none, some, List, [], ◌∷◌, ◌++◌, map, Eq, ◌==◌, if◌then◌else◌, is_some,
}

-- `Map<K, V>`: its entries in the order in which their keys were first written.
abbrev pub JsMap {ℓ κ} : Type ℓ → Type κ → Type (ℓ ⊔ κ)
JsMap K V = List (K × V)

module _ {ℓ κ} {K : Type ℓ} {V : Type κ} ⦃e : Eq K⦄ where
  -- `map.get(k)`, where `none` is `undefined`.
  unfoldable pub get : K → JsMap K V → Option V
  get k [] = none
  get k ((j, v) ∷ m) = if j == k then some v else get k m

  -- `map.set(k, v)`.
  unfoldable pub put : K → V → JsMap K V → JsMap K V
  put k v [] = (k, v) ∷ []
  put k v ((j, w) ∷ m) = if j == k then (j, v) ∷ m else (j, w) ∷ put k v m

  -- `map.delete(k)`.
  unfoldable pub delete : K → JsMap K V → JsMap K V
  delete k [] = []
  delete k ((j, w) ∷ m) = if j == k then m else (j, w) ∷ delete k m

  -- `map.has(k)`.
  abbrev pub has : K → JsMap K V → Bool
  has k m = is_some (get k m)

-- `map.keys()` and `map.values()`.
abbrev pub keys {ℓ κ} : {K : Type ℓ} {V : Type κ} → JsMap K V → List K
keys m = map (λ p. p.0) m

abbrev pub values {ℓ κ} : {K : Type ℓ} {V : Type κ} → JsMap K V → List V
values m = map (λ p. p.1) m

-- `set.has(a)` and `set.add(a)`; also `array.includes(a)`.
module _ {ℓ} {A : Type ℓ} ⦃e : Eq A⦄ where
  abbrev pub includes : List A → A → Bool
  includes [] a = false
  includes (x ∷ xs) a = x == a || includes xs a

  unfoldable pub add : A → List A → List A
  add a xs = if includes xs a then xs else xs ++ a ∷ []
