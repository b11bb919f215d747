-- ===== src/Core/ObjectPool.antt =====
-- src/core/object-pool.ts. An object is a reference, a number, into a heap that the pool shares with its
-- clients: the pool keeps references, and `reset` changes an object in place. The functions that a
-- client hands over are parameters: `factory n` is what the object that the n-th call of the factory
-- makes holds, the new object's reference being `n`, and `reset` what an object holds after it was
-- reset. The head of `pool` is the end of the source's array. The reuse rate, a quotient
-- of floats, is the pair of its dividend, which its clamping keeps from going below 0, and its divisor.
pub mod Clients
pub mod Reuse
mod Tests
use mlx_serving.Prelude.{
  ℕ, zero, suc, ◌+◌, ◌-◌, min, Bool, true, false, Option, none, some, List, [], ◌∷◌, ◌++◌,
  if◌then◌else◌, leb, ltb, eqb, length,
}

pub record ObjectPoolOptions : Type 0 where
  pub max_size : Option ℕ
  pub preallocate : Option ℕ
  pub track_stats : Option Bool

pub record ObjectPool : Type 0 where
  pub pool : List ℕ
  pub max_size : ℕ
  pub track_stats : Bool
  pub acquire_count : ℕ
  pub release_count : ℕ
  pub create_count : ℕ
  pub discard_count : ℕ
  -- How often the factory was called, and the reference of the next object that it makes.
  pub made : ℕ

pub record ObjectPoolStats : Type 0 where
  pub size : ℕ
  pub max_size : ℕ
  pub acquire_count : ℕ
  pub release_count : ℕ
  pub create_count : ℕ
  pub discard_count : ℕ
  pub reuse_rate : ℕ × ℕ

abbrev or_default {ℓ} : {A : Type ℓ} → Option A → A → A
or_default none d = d
or_default (some a) d = a

-- `if (this.trackStats) { count++ }`.
abbrev pub tracked : Bool → ℕ → ℕ
tracked track n = if track then n + 1 else n

-- What each object holds.
abbrev pub Heap : Type 0 → Type 0
Heap T = ℕ → T

abbrev pub write : {T : Type 0} → ℕ → T → Heap T → Heap T
write obj x heap i = if eqb i obj then x else heap i

module _ {T : Type 0} (factory : ℕ → T) where
  -- The loop that makes `count` objects in advance.
  unfoldable pub preallocate : ℕ → ObjectPool → Heap T → ObjectPool × Heap T
  preallocate zero p heap = (p, heap)
  preallocate (suc count) p heap =
      preallocate count
        (record p { pool = p.made ∷ p.pool; made = p.made + 1; create_count = p.create_count + 1 })
        (write p.made (factory p.made) heap)

  unfoldable pub new : ObjectPoolOptions → Heap T → ObjectPool × Heap T
  new options heap =
      let max_size = or_default options.max_size 100 in
      preallocate (min (or_default options.preallocate 0) max_size)
        (record {
          pool = [];
          max_size = max_size;
          track_stats = or_default options.track_stats false;
          acquire_count = 0;
          release_count = 0;
          create_count = 0;
          discard_count = 0;
          made = 0;
        })
        heap

  -- The pool and the heap afterwards, and the object.
  unfoldable pub acquire : ObjectPool → Heap T → (ObjectPool × Heap T) × ℕ
  acquire p heap =
      let p' = record p { acquire_count = tracked p.track_stats p.acquire_count } in
      elim p.pool [
        | obj ∷ rest ↦ ((record p' { pool = rest }, heap), obj)
        | [] ↦ (
          (
            record p' { create_count = tracked p.track_stats p.create_count; made = p.made + 1 },
            write p.made (factory p.made) heap,
          ),
          p.made,
        )
      ]

-- Nothing is asked of the object: it may be in the pool, or not of the pool at all.
unfoldable pub release : {T : Type 0} → (T → T) → ObjectPool → Heap T → ℕ → ObjectPool × Heap T
release reset p heap obj =
    let p' = record p { release_count = tracked p.track_stats p.release_count } in
    if ltb (length p.pool) p.max_size
    then (record p' { pool = obj ∷ p.pool }, write obj (reset (heap obj)) heap)
    else (record p' { discard_count = tracked p.track_stats p.discard_count }, heap)

unfoldable pub clear : ObjectPool → ObjectPool
clear p = record p { pool = [] }

unfoldable pub reset_stats : ObjectPool → ObjectPool
reset_stats p = record p {
  acquire_count = 0;
  release_count = 0;
  create_count = 0;
  discard_count = 0;
}

unfoldable pub get_stats : ObjectPool → ObjectPoolStats
get_stats p = record {
  size = length p.pool;
  max_size = p.max_size;
  acquire_count = p.acquire_count;
  release_count = p.release_count;
  create_count = p.create_count;
  discard_count = p.discard_count;
  reuse_rate =
      if ltb 0 p.acquire_count then (p.acquire_count - p.create_count, p.acquire_count) else (0, 1);
}

unfoldable pub is_full : ObjectPool → Bool
is_full p = leb p.max_size (length p.pool)

unfoldable pub is_empty : ObjectPool → Bool
is_empty p = eqb (length p.pool) 0
