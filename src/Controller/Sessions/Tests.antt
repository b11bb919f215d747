-- ===== src/Controller/Sessions/Tests.antt =====
-- The session registry of src/distributed/controller/session-registry.ts on small inputs.
use mlx_serving.Prelude.{◌≡◌, refl, arith, true, false, none, some, [], ◌∷◌, string_eq}
use mlx_serving.JsMap.{get, put, delete, has, sweep}
use mlx_serving.Controller.Sessions.{
  SessionRegistry, SessionRegistryConfig, new, set_session, get_session, remove_session,
  remove_sessions_by_worker, session_ids_of, get_sessions_by_worker, has_session, get_session_count,
  get_stats, clear, stop_cleanup, cleanup, destroy, sets, removes, removes_worker, cleans, step,
  run,
}
use mlx_serving.Controller.Sessions.Lookup.{IsValid, route, get_session_lem, run_sessions-IsValid}
use mlx_serving.Controller.Sessions.Sticky.{get_session-sticky}

program : Unit {0}
unfolding new set_session get_session remove_session remove_sessions_by_worker session_ids_of
    get_sessions_by_worker has_session get_session_count get_stats clear stop_cleanup cleanup
    destroy step run get put delete sweep
program = tt

abbrev config : SessionRegistryConfig
config = record { ttl_ms = 100; cleanup_interval_ms = 60 }

abbrev two : SessionRegistry
two = run (new config) ((0, sets "s1" "w1") ∷ (50, sets "s2" "w2") ∷ [])

two-IsValid : IsValid two
two-IsValid = run_sessions-IsValid config ((0, sets "s1" "w1") ∷ (50, sets "s2" "w2") ∷ [])

answers :
    ((get_session two "s1" 99).1 ≡ some "w1")
    × ((get_session two "s1" 100).1 ≡ none)
    × (has "s1" (get_session two "s1" 100).0.sessions ≡ false)
    × ((cleanup two 120).1 ≡ 1)
    × (get_sessions_by_worker two "w2" ≡ "s2" ∷ [])
    × (get_session_count (destroy two) ≡ 0)
unfolding program
answers = (refl, refl, refl, refl, refl, refl)

-- The count of sessions is that of the lookups.
counts_lookups : (get_stats two).total_sessions ≡ 0
unfolding program
counts_lookups = refl

-- A session that has expired counts as active until a lookup or a cleanup removes it.
counts_expired : (get_session_count two ≡ 2) × (has_session two "s1" 100 ≡ false)
unfolding program
counts_expired = (refl, refl)

get_session_lem_example :
    ((get_session two "s1" 60).1 ≡ some "w1")
    × (has_session two "s1" 60 ≡ true)
    × (route (get_session two "s1" 60).0 "s2" 70 ≡ some "w2")
unfolding program
get_session_lem_example = get_session_lem two "s1" "s2" 60 70 two-IsValid (omega arith)

get_session-sticky_example :
    (get_session
      (run
        (set_session two "s3" "w1" 60)
        ((70, removes "s1") ∷ (80, removes_worker "w2") ∷ (120, cleans) ∷ []))
      "s3"
      150).1
    ≡ some "w1"
unfolding program
get_session-sticky_example =
    get_session-sticky two "s3" "w1" 60 150
      ((70, removes "s1") ∷ (80, removes_worker "w2") ∷ (120, cleans) ∷ []) two-IsValid
      (refl, (refl, (omega arith, tt)))
