-- ===== src/Core/Deduplicator/Tests.antt =====
-- Calls of a deduplicator for two entries.
use mlx_serving.Prelude.{ℕ, ◌≡◌, refl, true, none, some, List, [], ◌∷◌, string_eq, arith}
use mlx_serving.JsMap.{get, put, delete, sweep}
use mlx_serving.Core.Deduplicator.{
  RequestDeduplicatorConfig, RequestDeduplicator, new, lookup, evict_oldest, store, reject,
  cleanup_expired, clear, Call, gets, rejects, sets, cleans, step, run,
}
use mlx_serving.Core.Deduplicator.Bounded.{IsValid, run_dedup-IsValid}
use mlx_serving.Core.Deduplicator.Sharing.{lookup-run_shared}

abbrev small_config : RequestDeduplicatorConfig
small_config = record { enabled = true; ttl_ms = 50; max_entries = 2 }

abbrev calls : List (ℕ × Call)
calls =
    (1, sets "a" 0)
    ∷ (2, sets "b" 1)
    ∷ (3, gets "a")
    ∷ (4, sets "c" 2)
    ∷ (5, rejects "b")
    ∷ (52, cleans)
    ∷ []

abbrev used : RequestDeduplicator
used = run (new small_config) calls

program : Unit {0}
unfolding new lookup evict_oldest store reject cleanup_expired clear step run get put delete
program = tt

-- The third fingerprint evicted the first.
used_a : (lookup used "a" 6).1 ≡ none
unfolding program sweep
used_a = refl

run_dedup-IsValid_example : IsValid 2 used
run_dedup-IsValid_example =
    run_dedup-IsValid small_config calls (omega arith)
      (refl, (refl, (refl, (refl, (refl, (refl, tt))))))

abbrev wide_config : RequestDeduplicatorConfig
wide_config = record { enabled = true; ttl_ms = 50; max_entries = 3 }

abbrev others : List (ℕ × Call)
others =
    (61, sets "e" 8) ∷ (62, gets "e") ∷ (63, rejects "e") ∷ (64, cleans) ∷ (65, sets "f" 9) ∷ []

lookup-run_shared_example :
    (lookup (run (store (new wide_config) "d" 7 60) others) "d" 100).1 ≡ some 7
lookup-run_shared_example =
    lookup-run_shared (new wide_config) "d" 7 60 others 100 (unfold program in refl)
      (unfold program in tt) (unfold program in omega arith)
      (unfold program in (refl, (omega arith, (refl, (omega arith, (refl, tt))))))
      (unfold program in omega arith)

-- A promise that is rejected takes the entry of a later one of its fingerprint with it.
rejected_early :
    (lookup (reject (store (store (new wide_config) "d" 7 60) "d" 8 70) "d") "d" 80).1 ≡ none
unfolding program
rejected_early = refl
