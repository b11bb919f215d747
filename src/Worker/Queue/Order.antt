-- ===== src/Worker/Queue/Order.antt =====
-- A worker's request queue and the list, ordered by priority and then by arrival, for which it stands.
use mlx_serving.Prelude.{
  ℕ, ◌≤◌, ◌<◌, ◌≡◌, refl, Bool, false, List, [], ◌∷◌, ◌++◌, length, length-append, leb, ltb,
  if◌then◌else◌, arith, sym, All, All-append, ap, ◌∙◌, ◌||◌,
}
use mathlib.Core.List.{append-nil, append_assoc}
use mlx_serving.Worker.Queue.{
  RequestPriority, high, medium, low, QueuedRequest, RequestQueue, get_depth, push,
}

abbrev pub rank : RequestPriority → ℕ
rank high = 0
rank medium = 1
rank low = 2

module _ {R : Type 0} where
  abbrev pub HasPriority : RequestPriority → QueuedRequest R → Type 0
  HasPriority p x = x.priority ≡ p

  -- Every item stands in the queue of its priority.
  pub record IsSorted (q : RequestQueue R) : Type 0 where
    pub high_sorted : All (HasPriority high) q.high_queue
    pub medium_sorted : All (HasPriority medium) q.medium_queue
    pub low_sorted : All (HasPriority low) q.low_queue

  -- The list that the three queues stand for, the next item to deliver first.
  unfoldable pub contents : RequestQueue R → List (QueuedRequest R)
  contents q = q.high_queue ++ (q.medium_queue ++ q.low_queue)

  -- The specification of taking an item in: behind those of its priority and above, before those
  -- below it.
  unfoldable pub insert_stable : QueuedRequest R → List (QueuedRequest R) → List (QueuedRequest R)
  insert_stable x [] = x ∷ []
  insert_stable x (y ∷ ys) =
      if ltb (rank x.priority) (rank y.priority) then x ∷ y ∷ ys else y ∷ insert_stable x ys

  -- The specification of dropping: the oldest item of low priority goes.
  unfoldable pub drop_low : List (QueuedRequest R) → List (QueuedRequest R)
  drop_low [] = []
  drop_low (y ∷ ys) = if leb 2 (rank y.priority) then ys else y ∷ drop_low ys

  pub insert_stable-append_past :
      (x : QueuedRequest R) (p : RequestPriority) (ys zs : List (QueuedRequest R))
      → All (HasPriority p) ys
      → rank p ≤ rank x.priority
      → insert_stable x (ys ++ zs) ≡ ys ++ insert_stable x zs
  unfolding insert_stable
  insert_stable-append_past x p [] zs h l = refl
  insert_stable-append_past x p (y ∷ ys) zs h l =
      ground (arith, insert_stable-append_past x p ys zs h.1 l)

  insert_stable-before :
      (x : QueuedRequest R) (p : RequestPriority) (ys : List (QueuedRequest R))
      → All (HasPriority p) ys
      → rank x.priority < rank p
      → insert_stable x ys ≡ x ∷ ys
  unfolding insert_stable
  insert_stable-before x p [] h l = refl
  insert_stable-before x p (y ∷ ys) h l = ground arith

  insert_stable-before₂ :
      (x : QueuedRequest R) (p p' : RequestPriority) (ys zs : List (QueuedRequest R))
      → All (HasPriority p) ys
      → All (HasPriority p') zs
      → rank x.priority < rank p
      → rank x.priority < rank p'
      → insert_stable x (ys ++ zs) ≡ x ∷ (ys ++ zs)
  unfolding insert_stable
  insert_stable-before₂ x p p' [] zs h k l l' = insert_stable-before x p' zs k l'
  insert_stable-before₂ x p p' (y ∷ ys) zs h k l l' = ground arith

  pub contents-push :
      (p : RequestPriority) (q : RequestQueue R) (x : QueuedRequest R)
      → x.priority ≡ p
      → IsSorted q
      → contents (push p x q) ≡ insert_stable x (contents q)
  unfolding contents push insert_stable
  contents-push high q x e s = rw (
    append_assoc,
    insert_stable-append_past x high q.high_queue (q.medium_queue ++ q.low_queue) s.high_sorted
        (ground arith),
    insert_stable-before₂ x medium low q.medium_queue q.low_queue s.medium_sorted s.low_sorted
        (ground arith) (ground arith),
  )
  contents-push medium q x e s = rw (
    append_assoc,
    insert_stable-append_past x high q.high_queue (q.medium_queue ++ q.low_queue) s.high_sorted
        (ground arith),
    insert_stable-append_past x medium q.medium_queue q.low_queue s.medium_sorted (ground arith),
    insert_stable-before x low q.low_queue s.low_sorted (ground arith),
  )
  contents-push low q x e s = rw (
    insert_stable-append_past x high q.high_queue (q.medium_queue ++ q.low_queue) s.high_sorted
        (ground arith),
    insert_stable-append_past x medium q.medium_queue q.low_queue s.medium_sorted (ground arith),
    insert-low,
  )
    where
      insert-low : insert_stable x q.low_queue ≡ q.low_queue ++ x ∷ []
      insert-low =
          ap (insert_stable x) (sym (append-nil q.low_queue))
          ∙ insert_stable-append_past x low q.low_queue [] s.low_sorted (ground arith)

  pub push-IsSorted :
      (p : RequestPriority) (q : RequestQueue R) (x : QueuedRequest R)
      → x.priority ≡ p
      → IsSorted q
      → IsSorted (push p x q)
  unfolding push
  push-IsSorted high q x e s = record {
    high_sorted = All-append (HasPriority high) q.high_queue (x ∷ []) s.high_sorted (e, tt);
    medium_sorted = s.medium_sorted;
    low_sorted = s.low_sorted;
  }
  push-IsSorted medium q x e s = record {
    high_sorted = s.high_sorted;
    medium_sorted = All-append (HasPriority medium) q.medium_queue (x ∷ []) s.medium_sorted (e, tt);
    low_sorted = s.low_sorted;
  }
  push-IsSorted low q x e s = record {
    high_sorted = s.high_sorted;
    medium_sorted = s.medium_sorted;
    low_sorted = All-append (HasPriority low) q.low_queue (x ∷ []) s.low_sorted (e, tt);
  }

  abbrev pub has_low : List (QueuedRequest R) → Bool
  has_low [] = false
  has_low (y ∷ ys) = leb 2 (rank y.priority) || has_low ys

  drop_low-append :
      (p : RequestPriority) (ys zs : List (QueuedRequest R))
      → All (HasPriority p) ys
      → rank p < 2
      → (drop_low (ys ++ zs) ≡ ys ++ drop_low zs) × (has_low (ys ++ zs) ≡ has_low zs)
  unfolding drop_low
  drop_low-append p [] zs h l = (refl, refl)
  drop_low-append p (y ∷ ys) zs h l = ground (arith, drop_low-append p ys zs h.1 l)

  pub drop_low-contents :
      (q : RequestQueue R)
      → IsSorted q
      → (drop_low (contents q) ≡ q.high_queue ++ (q.medium_queue ++ drop_low q.low_queue))
        × (has_low (contents q) ≡ has_low q.low_queue)
  unfolding contents
  drop_low-contents q s =
      let (a, b) =
        drop_low-append high q.high_queue (q.medium_queue ++ q.low_queue) s.high_sorted
          (omega arith) in
      let (c, d) =
        drop_low-append medium q.medium_queue q.low_queue s.medium_sorted (omega arith) in
      (a ∙ ap (λ l. q.high_queue ++ l) c, b ∙ d)

  pub get_depth-contents : (q : RequestQueue R) → get_depth q ≡ length (contents q)
  unfolding get_depth contents
  get_depth-contents q = omega (
    arith,
    length-append q.high_queue (q.medium_queue ++ q.low_queue),
    length-append q.medium_queue q.low_queue,
  )
