-- ===== src/Controller/Balancer/Memory.antt =====
-- `estimateModelMemory` of src/distributed/controller/load-balancers/smart-load-balancer.ts, over
-- texts as lists of UTF-16 code units. `toLowerCase` is the parameter `to_lower`.
use mlx_serving.Prelude.{
  ℕ, ◌≡◌, Bool, true, false, ◌&&◌, ◌||◌, List, [], ◌∷◌, eqb, if◌then◌else◌, arith,
}

unfoldable pub starts_with : List ℕ → List ℕ → Bool
starts_with [] s = true
starts_with (c ∷ cs) [] = false
starts_with (c ∷ cs) (d ∷ ds) = eqb c d && starts_with cs ds

-- `text.includes(part)`.
unfoldable pub includes_text : List ℕ → List ℕ → Bool
unfolding starts_with
includes_text part [] = starts_with part []
includes_text part (d ∷ ds) = starts_with part (d ∷ ds) || includes_text part ds

module _ (to_lower : List ℕ → List ℕ) where
  -- The estimate, in gigabytes.
  unfoldable pub estimate_model_memory : List ℕ → ℕ
  estimate_model_memory model_name =
      let name = to_lower model_name in
      if includes_text (b'3' ∷ b'b' ∷ []) name
      then 4
      else if includes_text (b'7' ∷ b'b' ∷ []) name
      then 8
      else if includes_text (b'1' ∷ b'3' ∷ b'b' ∷ []) name
      then 16
      else if includes_text (b'3' ∷ b'0' ∷ b'b' ∷ []) name
      then 32
      else if includes_text (b'7' ∷ b'0' ∷ b'b' ∷ []) name
      then 64
      else if includes_text (b'1' ∷ b'b' ∷ []) name
      then 2
      else if includes_text (b'0' ∷ b'.' ∷ b'5' ∷ b'b' ∷ []) name
      then 1
      else 8

includes_text-tail :
    (c : ℕ) (part s : List ℕ) → includes_text (c ∷ part) s ≡ true → includes_text part s ≡ true
unfolding includes_text
includes_text-tail c part [] h = cc
includes_text-tail c part (d ∷ []) h = ground arith
includes_text-tail c part (d ∷ e ∷ s) h = ground (arith, includes_text-tail c part (e ∷ s))

-- A model whose name says 13b is estimated at 4 gigabytes, as one that says 3b.
pub estimate_model_memory_13b :
    (to_lower : List ℕ → List ℕ) (model_name : List ℕ)
    → includes_text (b'1' ∷ b'3' ∷ b'b' ∷ []) (to_lower model_name) ≡ true
    → estimate_model_memory to_lower model_name ≡ 4
unfolding estimate_model_memory
estimate_model_memory_13b to_lower model_name h =
    rw (includes_text-tail b'1' (b'3' ∷ b'b' ∷ []) (to_lower model_name) h)
