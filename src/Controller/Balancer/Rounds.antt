-- ===== src/Controller/Balancer/Rounds.antt =====
-- The round robin: that consecutive selections take the least loaded workers in turn.
use mlx_serving.Prelude.{
  ℕ, zero, suc, ◌+◌, ◌*◌, ◌%◌, ◌<◌, ◌≡◌, refl, sym, ap, ◌∙◌, inl, inr, none, some, List, [], ◌∷◌,
  ◌++◌, map, String, arith, length, length-append, List-cases, get_elem?,
}
use native.Mathlib.Nat.{mod-eq_of_lt, mul-add-mod_self_right}
use mathlib.Core.List.{append_assoc}
use mlx_serving.Controller.Workers.{WorkerInfo}
use mlx_serving.Controller.Balancer.{
  SmartLoadBalancer, Selection, selected, bind_session, take_turn, select_fresh, truthy,
}
use mlx_serving.Controller.Balancer.Ties.{ties}
use mlx_serving.Controller.Balancer.Select.{candidates, select_fresh_cases}

-- `k` selections one after the other, of requests without a session.
unfoldable pub select_times :
    ℕ → SmartLoadBalancer → List WorkerInfo → String → ℕ → SmartLoadBalancer × List Selection
select_times zero b workers model_id now = (b, [])
select_times (suc k) b workers model_id now =
    let (b', one) = select_fresh b workers model_id none now in
    let (b'', rest) = select_times k b' workers model_id now in (b'', one ∷ rest)

get_elem?-middle :
    {A : Type 0} (pre suf : List A) (x : A) → get_elem? (pre ++ x ∷ suf) (length pre) ≡ some x
get_elem?-middle [] suf x = refl
get_elem?-middle (y ∷ pre) suf x = get_elem?-middle pre suf x

turn_index : (index c n p : ℕ) → index ≡ c * n + p → p < n → index % n ≡ p
turn_index index c n p e l = ap (λ t. t % n) e ∙ mul-add-mod_self_right c n p ∙ mod-eq_of_lt l

take_turn_at :
    (b : SmartLoadBalancer) (l : List WorkerInfo) (now p : ℕ) (w : WorkerInfo)
    → b.current_index % length l ≡ p
    → get_elem? l p ≡ some w
    → take_turn b l none now ≡ (record b { current_index = b.current_index + 1 }, selected w)
unfolding take_turn bind_session truthy
take_turn_at b l now p w e g = ground arith

-- A selection that finds candidates takes the worker at the index, and moves the index on.
select_fresh-turn :
    (b : SmartLoadBalancer) (workers : List WorkerInfo) (model_id : String) (now c : ℕ)
    (pre suf : List WorkerInfo) (w : WorkerInfo)
    → ties (candidates model_id workers) ≡ pre ++ w ∷ suf
    → b.current_index ≡ c * length (ties (candidates model_id workers)) + length pre
    → select_fresh b workers model_id none now
      ≡ (record b { current_index = b.current_index + 1 }, selected w)
select_fresh-turn b workers model_id now c pre suf w t i =
    elim (List-cases (candidates model_id workers)) [
      | inl e ↦ absurd (
          omega
            (arith, length-append pre (w ∷ suf), ap (λ l. length l) t, ap (λ l. length (ties l)) e))
      | inr (x, xs, e) ↦
          let l = ties (candidates model_id workers) in
          let shorter : length pre < length l =
            omega (arith, length-append pre (w ∷ suf), ap (λ l. length l) t) in
          let at =
            take_turn_at b l now (length pre) w
              (turn_index b.current_index c (length l) (length pre) i shorter)
              (ap (λ l. get_elem? l (length pre)) t ∙ get_elem?-middle pre suf w) in
          ground (arith, select_fresh_cases b workers model_id none now, at)
    ]

select_times-turns :
    (b : SmartLoadBalancer) (workers : List WorkerInfo) (model_id : String) (now c : ℕ)
    (pre suf : List WorkerInfo)
    → ties (candidates model_id workers) ≡ pre ++ suf
    → b.current_index ≡ c * length (ties (candidates model_id workers)) + length pre
    → (select_times (length suf) b workers model_id now).1 ≡ map selected suf
unfolding select_times
select_times-turns b workers model_id now c pre [] t i = refl
select_times-turns b workers model_id now c pre (w ∷ suf) t i =
    rw (select_fresh-turn b workers model_id now c pre suf w t i) (
      ap (λ l. selected w ∷ l)
        (select_times-turns (record b { current_index = b.current_index + 1 }) workers model_id now
          c (pre ++ w ∷ []) suf (t ∙ sym (append_assoc pre (w ∷ []) suf))
          (omega (arith, length-append pre (w ∷ [])))))

-- From an index that is a multiple of the number of least loaded workers, as many selections as
-- there are such workers take each of them once, in their order.
pub select_times-round :
    (b : SmartLoadBalancer) (workers : List WorkerInfo) (model_id : String) (now c : ℕ)
    → b.current_index ≡ c * length (ties (candidates model_id workers))
    → (select_times (length (ties (candidates model_id workers))) b workers model_id now).1
      ≡ map selected (ties (candidates model_id workers))
select_times-round b workers model_id now c i =
    select_times-turns b workers model_id now c [] (ties (candidates model_id workers)) refl
      (omega arith)
