-- ===== src/Core/ObjectPool/Clients.antt =====
-- The clients of src/core/object-pool.ts: the objects that they hold, and runs of what they do.
use mlx_serving.Prelude.{ℕ, ◌+◌, ◌≤◌, List, [], ◌∷◌, ◌++◌, if◌then◌else◌, eqb}
use mlx_serving.Core.ObjectPool.{
  ObjectPool, ObjectPoolOptions, Heap, write, new, acquire, release, clear,
}

-- How often the object stands in the list.
unfoldable pub count : ℕ → List ℕ → ℕ
count obj [] = 0
count obj (x ∷ xs) = (if eqb x obj then 1 else 0) + count obj xs

unfoldable pub remove : ℕ → List ℕ → List ℕ
remove obj [] = []
remove obj (x ∷ xs) = if eqb x obj then xs else x ∷ remove obj xs

-- The pool, the heap, and the objects that the clients hold.
pub record Session (T : Type 0) : Type 0 where
  pub pool : ObjectPool
  pub heap : Heap T
  pub held : List ℕ

-- What a client does: it calls the pool, or writes to an object.
pub data Call (T : Type 0) : Type 0 where
  acquires clears : Call T
  releases : ℕ → Call T
  writes : ℕ → T → Call T

-- An object handed out, what it holds then, and what the clients hold already.
pub record Handed (T : Type 0) : Type 0 where
  pub obj : ℕ
  pub contents : T
  pub others : List ℕ

module _ {T : Type 0} (factory : ℕ → T) (reset : T → T) where
  unfoldable pub start : ObjectPoolOptions → Heap T → Session T
  start options heap =
      let (p, heap') = new factory options heap in record { pool = p; heap = heap'; held = [] }

  unfoldable pub step : Session T → Call T → Session T × List (Handed T)
  step s acquires =
      let ((p, heap), obj) = acquire factory s.pool s.heap in
      (
        record { pool = p; heap = heap; held = obj ∷ s.held },
        (record { obj = obj; contents = heap obj; others = s.held }) ∷ [],
      )
  step s clears = (record s { pool = clear s.pool }, [])
  step s (releases obj) =
      let (p, heap) = release reset s.pool s.heap obj in
      (record { pool = p; heap = heap; held = remove obj s.held }, [])
  step s (writes obj x) = (record s { heap = write obj x s.heap }, [])

  -- The session after a run, and what was handed out.
  unfoldable pub run : Session T → List (Call T) → Session T × List (Handed T)
  run s [] = (s, [])
  run s (c ∷ cs) = let (s', one) = step s c in let (s'', rest) = run s' cs in (s'', one ++ rest)

  -- The client writes to and releases only what it holds.
  abbrev pub IsOwned : Session T → Call T → Type 0
  IsOwned s acquires = Unit
  IsOwned s clears = Unit
  IsOwned s (releases obj) = 1 ≤ count obj s.held
  IsOwned s (writes obj x) = 1 ≤ count obj s.held

  -- Every call of a run does.
  unfoldable pub AreOwned : Session T → List (Call T) → Type 0
  AreOwned s [] = Unit
  AreOwned s (c ∷ cs) = IsOwned s c × AreOwned (step s c).0 cs
