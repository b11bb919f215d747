-- ===== src/Core/RequestQueue/Invariant.antt =====
-- The invariant of the core request queue: the queue and the map of pending requests agree, the
-- limit is kept, and no request waits while there is room.
use mlx_serving.Prelude.{
  ℕ, ◌≤◌, ◌≡◌, ◌≢◌, refl, ap, ◌∙◌, true, false, Option, none, some, List, [], ◌∷◌, ◌++◌, String,
  ◌==◌, string_eq, ==_refl, ==_sym, length, All, arith, Bool-cases, inl, inr,
}
use mlx_serving.JsMap.{
  JsMap, get, put, delete, has, Distinct, put-Distinct, get-put, length-put_new,
}
use mlx_serving.Core.RequestQueue.{
  QueuedRequest, RequestQueue, below, activate, process_from, process_queue,
}

-- The map that holds the requests of a list under their ids.
abbrev pub index : List QueuedRequest → JsMap String QueuedRequest
index [] = []
index (r ∷ rs) = (r.id, r) ∷ index rs

abbrev pub IsWithin : Option ℕ → ℕ → Type 0
IsWithin none n = Unit
IsWithin (some m) n = n ≤ m

abbrev pub IsIdle : JsMap String QueuedRequest → QueuedRequest → Type 0
IsIdle active r = get r.id active ≡ none

-- The invariant with a list in place of the queue.
pub record Fits (l : List QueuedRequest) (q : RequestQueue) : Type 0 where
  pub indexed : q.pending ≡ index l
  pub distinct : Distinct (index l)
  pub active_distinct : Distinct q.active
  pub disjoint : All (IsIdle q.active) l
  pub limited : IsWithin q.max_concurrent (length q.active)

pub record IsValid (q : RequestQueue) : Type 0 where
  pub fits : Fits q.queue q
  pub busy : q.queue ≢ [] → below q.max_concurrent (length q.active) ≡ false

activate-IsIdle :
    (r : QueuedRequest) (active : JsMap String QueuedRequest) (l : List QueuedRequest)
    → get r.id (index l) ≡ none
    → All (IsIdle active) l
    → All (IsIdle (put r.id r active)) l
unfolding get
activate-IsIdle r active [] h a = tt
activate-IsIdle r active (x ∷ xs) h a = (
  ground (arith, get-put x.id r.id r active, ==_sym r.id x.id),
  activate-IsIdle r active xs (ground arith) a.1,
)

pub delete-index_head :
    (r : QueuedRequest) (l : List QueuedRequest) → delete r.id (index (r ∷ l)) ≡ index l
unfolding delete
delete-index_head r l = rw (==_refl r.id)

pub has-index_head : (r : QueuedRequest) (l : List QueuedRequest) → has r.id (index (r ∷ l)) ≡ true
unfolding get
has-index_head r l = rw (==_refl r.id)

pub activate-Fits :
    (r : QueuedRequest) (l : List QueuedRequest) (q : RequestQueue)
    → Fits (r ∷ l) q
    → below q.max_concurrent (length q.active) ≡ true
    → Fits l (activate r q)
unfolding activate
activate-Fits r l q f b = record {
  indexed = ap (delete r.id) f.indexed ∙ delete-index_head r l;
  distinct = f.distinct.1;
  active_distinct = put-Distinct r.id r q.active f.active_distinct;
  disjoint = activate-IsIdle r q.active l f.distinct.0 f.disjoint.1;
  limited = ground (arith, length-put_new r.id r q.active);
}

pub process_from-IsValid :
    (l : List QueuedRequest) (q : RequestQueue) → Fits l q → IsValid (process_from l q)
unfolding process_from
process_from-IsValid [] q f = record {
  fits = record {
    indexed = f.indexed;
    distinct = tt;
    active_distinct = f.active_distinct;
    disjoint = tt;
    limited = f.limited;
  };
  busy = λ n. absurd (n refl);
}
process_from-IsValid (r ∷ l) q f = elim (Bool-cases (below q.max_concurrent (length q.active))) [
  | inl b ↦ rw b (
      rw (ap (has r.id) f.indexed ∙ has-index_head r l)
        (process_from-IsValid l (activate r q) (activate-Fits r l q f b)))
  | inr b ↦ rw b (record {
    fits = record {
      indexed = f.indexed;
      distinct = f.distinct;
      active_distinct = f.active_distinct;
      disjoint = f.disjoint;
      limited = f.limited;
    };
    busy = λ _. b;
  })
]

pub process_queue-IsValid : (q : RequestQueue) → Fits q.queue q → IsValid (process_queue q)
unfolding process_queue
process_queue-IsValid q f = process_from-IsValid q.queue q f

-- A request with a new id joins the end of the queue.
pub index-append :
    (l : List QueuedRequest) (r : QueuedRequest)
    → get r.id (index l) ≡ none
    → put r.id r (index l) ≡ index (l ++ r ∷ [])
unfolding get put
index-append [] r h = refl
index-append (x ∷ xs) r h = elim (Bool-cases (x.id == r.id)) [
  | inl e ↦ absurd (ground arith)
  | inr e ↦ rw e (ap (λ m. (x.id, x) ∷ m) (index-append xs r (rw e at h)))
]
