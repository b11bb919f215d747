-- ===== src/Core/RequestQueue/Preserved.antt =====
-- The invariant of the core request queue, through each event.
use mlx_serving.Prelude.{
  ◌++◌, ℕ, suc, ◌≡◌, refl, sym, ap, ◌∙◌, subst, true, false, Option, none, some, List, [], ◌∷◌,
  String, string_eq, All, All-append, arith, Bool-cases, inl, inr,
}
use mlx_serving.Prelude.Int.{ℤ, pos}
use mlx_serving.JsMap.{
  JsMap, get, put, delete, has, keys, Distinct, put-Distinct, delete-Distinct, get-delete,
  length-delete,
}
use mlx_serving.Core.RequestQueue.{
  QueuedRequest, RequestQueue, Settlement, cancelled, execute, settle_active, remove_first,
  cancel_pending, cancel, finish, handle_timeout, cancel_all, clear_pending, Event, executes,
  finishes, times_out, cancels, clears_pending, step, run, new, limit_of, or_default,
}
use mlx_serving.Core.RequestQueue.Invariant.{
  Fits, index, IsWithin, IsIdle, IsValid, index-append, process_queue-IsValid,
}

get_of_has : (id : String) (m : JsMap String QueuedRequest) → has id m ≡ false → get id m ≡ none
get_of_has id m h = ground arith

-- `execute`, up to the call of `processQueue`.
abbrev pub submit : RequestQueue → String → ℕ → RequestQueue
submit q id now = record q {
  pending = put id (record { id = id; timestamp = now }) q.pending;
  queue = q.queue ++ (record { id = id; timestamp = now }) ∷ [];
}

pub submit-Fits :
    (q : RequestQueue) (id : String) (now : ℕ)
    → has id q.pending ≡ false
    → has id q.active ≡ false
    → IsValid q
    → Fits (submit q id now).queue (submit q id now)
submit-Fits q id now np na v =
    let r : QueuedRequest = record { id = id; timestamp = now } in
    let absent : get id (index q.queue) ≡ none =
      ap (get id) (sym v.fits.indexed) ∙ get_of_has id q.pending np in
    let same = index-append q.queue r absent in
    record {
      indexed = ap (put id r) v.fits.indexed ∙ same;
      distinct = subst Distinct same (put-Distinct id r (index q.queue) v.fits.distinct);
      active_distinct = v.fits.active_distinct;
      disjoint =
          All-append (IsIdle q.active) q.queue (r ∷ []) v.fits.disjoint
            (get_of_has id q.active na, tt);
      limited = v.fits.limited;
    }

execute-IsValid :
    (q : RequestQueue) (id : String) (now : ℕ)
    → has id q.pending ≡ false
    → has id q.active ≡ false
    → IsValid q
    → IsValid (execute q id now)
unfolding execute
execute-IsValid q id now np na v =
    process_queue-IsValid (submit q id now) (submit-Fits q id now np na v)

delete-IsIdle :
    (id : String) (active : JsMap String QueuedRequest) (l : List QueuedRequest)
    → Distinct active
    → All (IsIdle active) l
    → All (IsIdle (delete id active)) l
delete-IsIdle id active [] d a = tt
delete-IsIdle id active (x ∷ xs) d a =
    (ground (arith, get-delete x.id id active d), delete-IsIdle id active xs d a.1)

-- The end of an active request, up to the call of `processQueue`.
abbrev pub release : RequestQueue → String → Settlement → RequestQueue
release q id how = record q { active = delete id q.active; settled = q.settled ++ (id, how) ∷ [] }

IsWithin-suc : (m : Option ℕ) {k n : ℕ} → IsWithin m n → n ≡ suc k → IsWithin m k
IsWithin-suc none w e = tt
IsWithin-suc (some m) w e = omega arith

pub release-Fits :
    (q : RequestQueue) (id : String) (how : Settlement)
    → has id q.active ≡ true
    → IsValid q
    → Fits q.queue (release q id how)
release-Fits q id how a v = record {
  indexed = v.fits.indexed;
  distinct = v.fits.distinct;
  active_distinct = delete-Distinct id q.active v.fits.active_distinct;
  disjoint = delete-IsIdle id q.active q.queue v.fits.active_distinct v.fits.disjoint;
  limited = IsWithin-suc q.max_concurrent (v.fits.limited) (length-delete id q.active a);
}

settle_active-IsValid :
    (q : RequestQueue) (id : String) (how : Settlement)
    → has id q.active ≡ true
    → IsValid q
    → IsValid (settle_active q id how)
unfolding settle_active
settle_active-IsValid q id how a v =
    process_queue-IsValid (release q id how) (release-Fits q id how a v)

delete-index :
    (id : String) (l : List QueuedRequest) → delete id (index l) ≡ index (remove_first id l)
unfolding delete remove_first
delete-index id [] = refl
delete-index id (x ∷ xs) = ground (arith, delete-index id xs)

remove_first-All :
    (P : QueuedRequest → Type 0) (id : String) (l : List QueuedRequest)
    → All P l
    → All P (remove_first id l)
unfolding remove_first
remove_first-All P id [] a = tt
remove_first-All P id (x ∷ xs) a = ground (arith, remove_first-All P id xs a.1)

cancel_pending-IsValid :
    (q : RequestQueue) (id : String) → IsValid q → IsValid (cancel_pending q id)
unfolding cancel_pending
cancel_pending-IsValid q id v = record {
  fits = record {
    indexed = ap (delete id) v.fits.indexed ∙ delete-index id q.queue;
    distinct =
        subst Distinct (delete-index id q.queue)
          (delete-Distinct id (index q.queue) v.fits.distinct);
    active_distinct = v.fits.active_distinct;
    disjoint = remove_first-All (IsIdle q.active) id q.queue v.fits.disjoint;
    limited = v.fits.limited;
  };
  busy = λ n. v.busy (λ e. n (ap (remove_first id) e));
}

pub cancel-IsValid : (q : RequestQueue) (id : String) → IsValid q → IsValid (cancel q id).0
unfolding cancel
cancel-IsValid q id v = elim (Bool-cases (has id q.pending)) [
  | inl p ↦ rw p (cancel_pending-IsValid q id v)
  | inr p ↦ elim (Bool-cases (has id q.active)) [
    | inl a ↦ rw (p, a) (settle_active-IsValid q id cancelled a v)
    | inr a ↦ rw (p, a) v
  ]
]

cancel_all-IsValid : (ids : List String) (q : RequestQueue) → IsValid q → IsValid (cancel_all ids q)
unfolding cancel_all
cancel_all-IsValid [] q v = v
cancel_all-IsValid (id ∷ ids) q v = cancel_all-IsValid ids (cancel q id).0 (cancel-IsValid q id v)

-- A request comes with an id that no request in the queue has.
abbrev pub IsNew : RequestQueue → Event → Type 0
IsNew q (executes id now) = (has id q.pending ≡ false) × (has id q.active ≡ false)
IsNew q e = Unit

pub step-IsValid : (q : RequestQueue) (e : Event) → IsNew q e → IsValid q → IsValid (step q e)
unfolding step finish handle_timeout clear_pending
step-IsValid q (executes id now) n v = execute-IsValid q id now n.0 n.1 v
step-IsValid q (finishes id ok) n v = elim (Bool-cases (has id q.active)) [
  | inl a ↦ rw a (settle_active-IsValid q id _ a v)
  | inr a ↦ rw a v
]
step-IsValid q (times_out id) n v = elim (Bool-cases (has id q.active)) [
  | inl a ↦ rw a (settle_active-IsValid q id _ a v)
  | inr a ↦ rw a v
]
step-IsValid q (cancels id) n v = cancel-IsValid q id v
step-IsValid q clears_pending n v = cancel_all-IsValid (keys q.pending) q v

-- Every request of a run comes with an id that no request in the queue has at that time.
abbrev pub AllNew : RequestQueue → List Event → Type 0
AllNew q [] = Unit
AllNew q (e ∷ es) = IsNew q e × AllNew (step q e) es

pub run-IsValid_from :
    (q : RequestQueue) (es : List Event) → AllNew q es → IsValid q → IsValid (run q es)
unfolding run
run-IsValid_from q [] n v = v
run-IsValid_from q (e ∷ es) n v = run-IsValid_from (step q e) es n.1 (step-IsValid q e n.0 v)

IsWithin-zero : (m : Option ℕ) → IsWithin m 0
IsWithin-zero none = tt
IsWithin-zero (some m) = omega arith

pub new-IsValid : (m : Option ℤ) (t : Option ℕ) → IsValid (new m t)
unfolding new
new-IsValid m t = record {
  fits = record {
    indexed = refl;
    distinct = tt;
    active_distinct = tt;
    disjoint = tt;
    limited = IsWithin-zero (limit_of (or_default m (pos 0)));
  };
  busy = λ n. absurd (n refl);
}

-- Whatever requests, results, timeouts and cancellations a new queue sees, if each request comes
-- with a new id: the pending requests are those of the queue, in its order; none of them is active;
-- no more requests are active than `maxConcurrent`; and no request waits while fewer are active.
pub run_queue-IsValid :
    (m : Option ℤ) (t : Option ℕ) (es : List Event)
    → AllNew (new m t) es
    → IsValid (run (new m t) es)
run_queue-IsValid m t es n = run-IsValid_from (new m t) es n (new-IsValid m t)
