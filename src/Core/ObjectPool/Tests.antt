-- ===== src/Core/ObjectPool/Tests.antt =====
-- The object pool of src/core/object-pool.ts on small inputs.
use mlx_serving.Prelude.{ℕ, ◌≡◌, refl, true, some, List, [], ◌∷◌, All, arith}
use mlx_serving.Core.ObjectPool.{
  ObjectPool, ObjectPoolOptions, new, preallocate, acquire, release, clear, reset_stats, get_stats,
  is_full, is_empty,
}
use mlx_serving.Core.ObjectPool.Clients.{
  count, remove, Session, Call, acquires, releases, writes, start, step, run, AreOwned,
}
use mlx_serving.Core.ObjectPool.Reuse.{IsClean, IsFresh, run-IsClean}

program : Unit {0}
unfolding new preallocate acquire release clear reset_stats get_stats is_full is_empty count remove
    start step run AreOwned
program = tt

-- An object holds a number; a fresh one and one that was reset holds 0.
abbrev fresh : ℕ → ℕ
fresh n = 0

abbrev options : ObjectPoolOptions
options = record { max_size = some 2; preallocate = some 5; track_stats = some true }

abbrev opened : Session ℕ
opened = start fresh fresh options (λ i. 9)

-- Two objects are made in advance, the third when it is asked for; there is no room for it again.
abbrev calls : List (Call ℕ)
calls =
    acquires
    ∷ acquires
    ∷ acquires
    ∷ writes 1 7
    ∷ releases 1
    ∷ releases 0
    ∷ releases 2
    ∷ acquires
    ∷ []

abbrev used : ObjectPool
used = (run fresh fresh opened calls).0.pool

counts :
    (get_stats used ≡ record {
      size = 1;
      max_size = 2;
      acquire_count = 4;
      release_count = 3;
      create_count = 3;
      discard_count = 1;
      reuse_rate = (1, 4);
    })
    × (is_full opened.pool ≡ true)
    × (is_empty (clear used) ≡ true)
    × ((reset_stats used).create_count ≡ 0)
unfolding program
counts = (refl, refl, refl, refl)

-- Being 0 is what a fresh object and one that was reset have in common.
run-IsClean_example :
    IsClean (λ n. n ≡ 0) (run fresh fresh opened calls).0
    × All (IsFresh (λ n. n ≡ 0)) (run fresh fresh opened calls).1
run-IsClean_example =
    run-IsClean fresh fresh (λ n. n ≡ 0) (λ n. refl) (λ x. refl) options (λ i. 9) calls
      (unfold program in
        (tt, (tt, (tt, (omega arith, (omega arith, (omega arith, (omega arith, (tt, tt)))))))))

-- A client that releases an object twice puts it into the pool twice: it is handed out to two.
released_twice :
    (run fresh fresh opened (acquires ∷ acquires ∷ releases 1 ∷ releases 1 ∷ [])).0.pool.pool
    ≡ 1 ∷ 1 ∷ []
unfolding program
released_twice = refl
