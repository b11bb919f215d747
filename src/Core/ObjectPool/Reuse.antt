-- ===== src/Core/ObjectPool/Reuse.antt =====
-- What a pool of src/core/object-pool.ts hands out to clients that keep to the objects they hold.
use mlx_serving.Prelude.{
  ℕ, zero, suc, ◌+◌, ◌≤◌, ◌≡◌, subst, sym, ap, true, List, [], ◌∷◌, length, All, All-append, arith,
  Bool-cases, List-cases, inl, inr, if◌then◌else◌, if_true, if_false, eqb, ltb,
}
use mlx_serving.Core.ObjectPool.{
  ObjectPool, ObjectPoolOptions, Heap, write, new, preallocate, acquire, release, clear,
}
use mlx_serving.Core.ObjectPool.Clients.{
  count, remove, Session, Call, acquires, clears, releases, writes, Handed, start, step, run,
  IsOwned, AreOwned,
}

abbrev one : ℕ → ℕ → ℕ
one obj i = if eqb obj i then 1 else 0

count-remove :
    (obj i : ℕ) (l : List ℕ) → 1 ≤ count obj l → count i (remove obj l) + one obj i ≡ count i l
unfolding count remove
count-remove obj i [] h = absurd (omega arith)
count-remove obj i (x ∷ xs) h = elim (Bool-cases (eqb x obj)) [
  | inl e ↦ ground arith
  | inr e ↦ ground (arith, count-remove obj i xs)
]

module _ {T : Type 0} (P : T → Type 0) where
  -- An object was made, and is once in the pool or once with the clients, or nowhere; those in the
  -- pool are as after a reset; and the pool is within its bound.
  pub record IsClean (s : Session T) : Type 0 where
    pub once : (i : ℕ) → count i s.pool.pool + count i s.held ≤ (if ltb i s.pool.made then 1 else 0)
    pub clean : (i : ℕ) → 1 ≤ count i s.pool.pool → P (s.heap i)
    pub bounded : length s.pool.pool ≤ s.pool.max_size

  -- A new object, as the clients get it.
  pub record IsFresh (x : Handed T) : Type 0 where
    pub contents_clean : P x.contents
    pub unshared : count x.obj x.others ≡ 0

module _ {T : Type 0} (factory : ℕ → T) (reset : T → T) (P : T → Type 0) where
  preallocate-IsClean :
      ((n : ℕ) → P (factory n))
      → (n : ℕ) (p : ObjectPool) (heap : Heap T)
      → IsClean P (record { pool = p; heap = heap; held = [] })
      → length p.pool + n ≤ p.max_size
      → IsClean P (record {
        pool = (preallocate factory n p heap).0;
        heap = (preallocate factory n p heap).1;
        held = [];
      })
  unfolding preallocate count
  preallocate-IsClean f zero p heap c l = c
  preallocate-IsClean f (suc n) p heap c l =
      preallocate-IsClean f n _ _
        (record {
          once = λ i. ground (arith, c.once i);
          clean = λ i h. ground (arith, c.clean i, f p.made);
          bounded = omega arith;
        })
        (omega arith)

  write-clean :
      (l : List ℕ) (obj : ℕ) (x : T) (heap : Heap T)
      → count obj l ≡ 0
      → ((i : ℕ) → 1 ≤ count i l → P (heap i))
      → (i : ℕ) → 1 ≤ count i l
      → P (write obj x heap i)
  write-clean l obj x heap n c i h = elim (Bool-cases (eqb i obj)) [
    | inl e ↦
        let same : i ≡ obj = ground (arith, e) in absurd (omega (arith, ap (λ j. count j l) same))
    | inr e ↦ subst P (sym (if_false x (heap i) e)) (c i h)
  ]

  -- What has to hold of a pool, a heap and the object handed out, where the clients hold others.
  record Given (held : List ℕ) (r : (ObjectPool × Heap T) × ℕ) : Type 0 where
    session : IsClean P (record { pool = r.0.0; heap = r.0.1; held = r.1 ∷ held })
    object : IsFresh P (record { obj = r.1; contents = r.0.1 r.1; others = held })

  acquire-Given :
      ((n : ℕ) → P (factory n))
      → (s : Session T) → IsClean P s
      → Given s.held (acquire factory s.pool s.heap)
  unfolding acquire count
  acquire-Given f s c = elim (List-cases s.pool.pool) [
    | inl e ↦
        let none_there : (i : ℕ) → count i s.pool.pool ≡ 0 = λ i. ap (count i) e in
        let unmade = c.once s.pool.made in
        let self : eqb s.pool.made s.pool.made ≡ true = ground arith in
        rw (e, acquire)
          (record {
            session = record {
              once = λ i. ground (arith, c.once i, none_there i);
              clean = λ i h. absurd (omega (arith, none_there i));
              bounded = omega (arith, c.bounded);
            };
            object = record {
              contents_clean = subst P (sym (if_true _ (s.heap s.pool.made) self)) (f s.pool.made);
              unshared = ground (arith, unmade);
            };
          })
    | inr (obj, rest, e) ↦
        let counted : (i : ℕ) → count i s.pool.pool ≡ one obj i + count i rest =
          λ i. ap (count i) e in
        let self : one obj obj ≡ 1 = ground arith in
        let bounded = ap (λ l. length l) e in
        let made = c.once obj in
        rw (e, acquire)
          (record {
            session = record {
              once = λ i. omega (arith, c.once i, counted i);
              clean = λ i h. c.clean i (omega (arith, counted i));
              bounded = omega (arith, c.bounded, bounded);
            };
            object = record {
              contents_clean = c.clean obj (omega (arith, counted obj, self));
              unshared = ground (arith, made, counted obj, self);
            };
          })
  ]

  release-IsClean :
      ((x : T) → P (reset x))
      → (s : Session T) (obj : ℕ) → 1 ≤ count obj s.held
      → IsClean P s
      → IsClean P (step factory reset s (releases obj)).0
  unfolding step release count
  release-IsClean r s obj h c =
      let left : (i : ℕ) → count i (remove obj s.held) + one obj i ≡ count i s.held =
        λ i. count-remove obj i s.held h in
      let goal : ObjectPool × Heap T → Type 0 =
        λ q. IsClean P (record { pool = q.0; heap = q.1; held = remove obj s.held }) in
      let absent : count obj s.pool.pool ≡ 0 = ground (arith, c.once obj) in
      elim (Bool-cases (ltb (length s.pool.pool) s.pool.max_size)) [
        | inl room ↦ subst goal (sym (if_true _ _ room)) (record {
          once = λ i. omega (arith, c.once i, left i);
          clean = λ i k. elim (Bool-cases (eqb i obj)) [
            | inl e ↦ subst P (sym (if_true _ (s.heap i) e)) (r (s.heap obj))
            | inr e ↦
                subst P (sym (if_false (reset (s.heap obj)) (s.heap i) e))
                  (c.clean i (ground (arith, e, k)))
          ];
          bounded = ground (arith, room);
        })
        | inr full ↦ subst goal (sym (if_false _ _ full)) (record {
          once = λ i. omega (arith, c.once i, left i);
          clean = c.clean;
          bounded = c.bounded;
        })
      ]

  step-IsClean :
      ((n : ℕ) → P (factory n))
      → ((x : T) → P (reset x))
      → (s : Session T) (call : Call T) → IsOwned factory reset s call
      → IsClean P s
      → IsClean P (step factory reset s call).0 × All (IsFresh P) (step factory reset s call).1
  unfolding step clear
  step-IsClean f r s acquires o c = let g = acquire-Given f s c in (g.session, (g.object, tt))
  step-IsClean f r s clears o c = (
    record {
      once = λ i. unfold count in omega (arith, c.once i);
      clean = λ i h. absurd (unfold count in omega arith);
      bounded = omega arith;
    },
    tt,
  )
  step-IsClean f r s (releases obj) o c = (release-IsClean r s obj o c, tt)
  step-IsClean f r s (writes obj x) o c = (
    record {
      once = c.once;
      clean = write-clean s.pool.pool obj x s.heap (ground (arith, c.once obj)) c.clean;
      bounded = c.bounded;
    },
    tt,
  )

  run-IsClean_from :
      ((n : ℕ) → P (factory n))
      → ((x : T) → P (reset x))
      → (s : Session T) (calls : List (Call T)) → AreOwned factory reset s calls
      → IsClean P s
      → IsClean P (run factory reset s calls).0 × All (IsFresh P) (run factory reset s calls).1
  unfolding run AreOwned
  run-IsClean_from f r s [] o c = (c, tt)
  run-IsClean_from f r s (call ∷ calls) o c =
      let (c', given) = step-IsClean f r s call o.0 c in
      let (c'', rest) = run-IsClean_from f r (step factory reset s call).0 calls o.1 c' in
      (c'', All-append (IsFresh P) (step factory reset s call).1 _ given rest)

  -- Suppose that every object that the factory makes, and every object after a reset, has a property,
  -- and that the clients write to and release only objects that they hold. Then every object that a
  -- new pool ever hands out has the property when it is handed out, and no client holds it already;
  -- at the end no object is twice in the pool, or both in the pool and with a client; those in the
  -- pool have the property; and the pool holds no more than `maxSize` objects.
  pub run-IsClean :
      ((n : ℕ) → P (factory n))
      → ((x : T) → P (reset x))
      → (options : ObjectPoolOptions) (heap : Heap T) (calls : List (Call T))
      → AreOwned factory reset (start factory reset options heap) calls
      → IsClean P (run factory reset (start factory reset options heap) calls).0
        × All (IsFresh P) (run factory reset (start factory reset options heap) calls).1
  unfolding start new
  run-IsClean f r options heap calls o =
      run-IsClean_from f r (start factory reset options heap) calls o (
        preallocate-IsClean f _ _ heap
          (record {
            once = λ i. unfold count in omega arith;
            clean = λ i h. absurd (unfold count in omega arith);
            bounded = omega arith;
          })
          (omega arith))
