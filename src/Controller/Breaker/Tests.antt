-- ===== src/Controller/Breaker/Tests.antt =====
-- The circuit breaker of src/distributed/controller/circuit-breaker.ts on small inputs.
use mlx_serving.Prelude.{◌≡◌, refl, arith, true, false, none, some, [], ◌∷◌}
use mlx_serving.JsMap.{get, put, delete}
use mlx_serving.Controller.Breaker.{
  closed, open_, half_open, Config, Breaker, new, can_make_request, record_success, record_failure,
  get_state, reset, asks, succeeds, fails, step, run,
}
use mlx_serving.Controller.Breaker.Traces.{all_at, run-succeeds, run-blocks, run-recovers}
use mlx_serving.Controller.Breaker.Manager.{
  Manager, get_breaker, call_on, remove_breaker, reset_all, reset_entries, breaker_of,
}

program : Unit {0}
unfolding new can_make_request record_success record_failure get_state reset step run get_breaker
    call_on remove_breaker reset_all reset_entries breaker_of get put delete
program = tt

abbrev two : Config
two = record { failure_threshold = 2; success_threshold = 2; timeout_ms = 100 }

abbrev fresh : Breaker
fresh = new "w1" two

abbrev tripped : Breaker
tripped = run fresh ((10, fails) ∷ (20, fails) ∷ [])

abbrev probing : Breaker
probing = run tripped ((120, asks) ∷ [])

states :
    (tripped.state ≡ open_)
    × ((can_make_request tripped 119).1 ≡ false)
    × (probing.state ≡ half_open)
    × ((run probing ((130, fails) ∷ [])).opened_at ≡ some 130)
unfolding program
states = (refl, refl, refl, refl)

run-succeeds_example : (run probing (all_at succeeds (130 ∷ 140 ∷ []))).state ≡ closed
unfolding program
run-succeeds_example = run-succeeds probing (130 ∷ 140 ∷ []) refl (omega arith)

run-blocks_example :
    can_make_request (run tripped ((30, asks) ∷ (40, succeeds) ∷ [])) 119
    ≡ (run tripped ((30, asks) ∷ (40, succeeds) ∷ []), false)
unfolding program
run-blocks_example =
    run-blocks tripped 20 ((30, asks) ∷ (40, succeeds) ∷ []) 119 (refl, refl)
      (omega arith, (omega arith, tt)) (omega arith)

run-recovers_example :
    ((can_make_request tripped 120).1 ≡ true)
    × ((run tripped ((120, asks) ∷ all_at succeeds (130 ∷ 140 ∷ []))).state ≡ closed)
    × ((run tripped ((120, asks) ∷ all_at succeeds (130 ∷ 140 ∷ []))).failures ≡ 0)
    × ((run tripped ((120, asks) ∷ all_at succeeds (130 ∷ 140 ∷ []))).successes ≡ 0)
    × ((run tripped ((120, asks) ∷ all_at succeeds (130 ∷ 140 ∷ []))).opened_at ≡ none)
unfolding program
run-recovers_example =
    run-recovers tripped 20 120 (130 ∷ 140 ∷ []) (refl, refl) (omega arith) (omega arith) refl

abbrev fleet : Manager
fleet = call_on (call_on (record { breakers = []; config = two }) "w1" 10 fails) "w2" 20 fails
