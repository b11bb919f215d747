-- ===== src/Core/RequestQueue/Ledger.antt =====
-- The places of a request of the core request queue: waiting, running, settled.
use mlx_serving.Prelude.{
  ℕ, ◌+◌, ◌≡◌, refl, sym, ap, ◌∙◌, true, false, Option, none, List, [], ◌∷◌, ◌++◌, map, String,
  ◌==◌, string_eq, if◌then◌else◌, length, arith, Bool-cases, inl, inr,
}
use mlx_serving.Prelude.Int.{ℤ}
use mlx_serving.JsMap.{JsMap, get, put, delete, has, keys}
use mlx_serving.Core.RequestQueue.{
  QueuedRequest, RequestQueue, Settlement, below, activate, process_from, process_queue, execute,
  settle_active, remove_first, cancel_pending, cancel, finish, handle_timeout, cancel_all,
  clear_pending, Event, executes, finishes, times_out, cancels, clears_pending, step, run, new,
  cancelled,
}
use mlx_serving.Core.RequestQueue.Invariant.{index, Fits, IsValid, activate-Fits, has-index_head}
use mlx_serving.Core.RequestQueue.Preserved.{
  AllNew, IsNew, submit, submit-Fits, release, release-Fits, cancel-IsValid, step-IsValid,
  new-IsValid,
}

-- How often an id stands in a list.
abbrev pub occurs : String → List String → ℕ
occurs id [] = 0
occurs id (j ∷ js) = (if j == id then 1 else 0) + occurs id js

abbrev pub ids : List QueuedRequest → List String
ids l = map (λ r. r.id) l

abbrev pub settled_ids : RequestQueue → List String
settled_ids q = map (λ s. s.0) q.settled

-- The places of an id in a queue whose waiting requests are those of the list.
abbrev places_with : String → List QueuedRequest → RequestQueue → ℕ
places_with id l q = occurs id (ids l) + (occurs id (keys q.active) + occurs id (settled_ids q))

abbrev pub places : String → RequestQueue → ℕ
places id q = places_with id q.queue q

occurs-put :
    (id k : String) (v : QueuedRequest) (m : JsMap String QueuedRequest)
    → get k m ≡ none
    → occurs id (keys (put k v m)) ≡ occurs id (keys m) + (if k == id then 1 else 0)
unfolding get put
occurs-put id k v [] h = omega arith
occurs-put id k v ((j, w) ∷ m) h = ground (arith, occurs-put id k v m)

occurs-delete :
    (id k : String) (m : JsMap String QueuedRequest)
    → has k m ≡ true
    → occurs id (keys m) ≡ occurs id (keys (delete k m)) + (if k == id then 1 else 0)
unfolding get delete
occurs-delete id k [] h = cc
occurs-delete id k ((j, w) ∷ m) h = ground (arith, occurs-delete id k m, string_eq.test_iff j k)

occurs-remove_first :
    (id k : String) (l : List QueuedRequest)
    → has k (index l) ≡ true
    → occurs id (ids l) ≡ occurs id (ids (remove_first k l)) + (if k == id then 1 else 0)
unfolding get remove_first
occurs-remove_first id k [] h = cc
occurs-remove_first id k (x ∷ xs) h =
    ground (arith, occurs-remove_first id k xs, string_eq.test_iff x.id k)

places-activate :
    (id : String) (r : QueuedRequest) (l : List QueuedRequest) (q : RequestQueue)
    → get r.id q.active ≡ none
    → places_with id l (activate r q) ≡ places_with id (r ∷ l) q
unfolding activate
places-activate id r l q h = omega (arith, occurs-put id r.id r q.active h)

places-process_from :
    (id : String) (l : List QueuedRequest) (q : RequestQueue)
    → Fits l q
    → places id (process_from l q) ≡ places_with id l q
unfolding process_from
places-process_from id [] q f = refl
places-process_from id (r ∷ l) q f = elim (Bool-cases (below q.max_concurrent (length q.active))) [
  | inl b ↦ rw b (
      rw (ap (has r.id) f.indexed ∙ has-index_head r l) (
        places-process_from id l (activate r q) (activate-Fits r l q f b)
        ∙ places-activate id r l q f.disjoint.0))
  | inr b ↦ rw b refl
]

places-execute :
    (id : String) (q : RequestQueue) (j : String) (now : ℕ)
    → has j q.pending ≡ false
    → has j q.active ≡ false
    → IsValid q
    → places id (execute q j now) ≡ places id q + (if j == id then 1 else 0)
unfolding execute process_queue
places-execute id q j now np na v =
    let r : QueuedRequest = record { id = j; timestamp = now } in
    places-process_from id (q.queue ++ r ∷ []) (submit q j now) (submit-Fits q j now np na v)
    ∙ omega (arith, ids-append q.queue r)
  where
    ids-append :
        (l : List QueuedRequest) (r : QueuedRequest)
        → occurs id (ids (l ++ r ∷ [])) ≡ occurs id (ids l) + (if r.id == id then 1 else 0)
    ids-append [] r = omega arith
    ids-append (x ∷ xs) r = omega (arith, ids-append xs r)

occurs-settle :
    (id j : String) (how : Settlement) (s : List (String × Settlement))
    → occurs id (map (λ p. p.0) (s ++ (j, how) ∷ []))
      ≡ occurs id (map (λ p. p.0) s) + (if j == id then 1 else 0)
occurs-settle id j how [] = omega arith
occurs-settle id j how (x ∷ xs) = omega (arith, occurs-settle id j how xs)

places-settle_active :
    (id : String) (q : RequestQueue) (j : String) (how : Settlement)
    → has j q.active ≡ true
    → IsValid q
    → places id (settle_active q j how) ≡ places id q
unfolding settle_active process_queue
places-settle_active id q j how a v =
    places-process_from id q.queue (release q j how) (release-Fits q j how a v)
    ∙ omega (arith, occurs-delete id j q.active a, occurs-settle id j how q.settled)

places-cancel :
    (id : String) (q : RequestQueue) (j : String)
    → IsValid q
    → places id (cancel q j).0 ≡ places id q
unfolding cancel cancel_pending
places-cancel id q j v = elim (Bool-cases (has j q.pending)) [
  | inl p ↦ rw p (
      omega (
        arith,
        occurs-remove_first id j q.queue (ap (has j) (sym v.fits.indexed) ∙ p),
        occurs-settle id j cancelled q.settled,
      ))
  | inr p ↦ elim (Bool-cases (has j q.active)) [
    | inl a ↦ rw (p, a) (places-settle_active id q j cancelled a v)
    | inr a ↦ rw (p, a) refl
  ]
]

places-cancel_all :
    (id : String) (js : List String) (q : RequestQueue)
    → IsValid q
    → places id (cancel_all js q) ≡ places id q
unfolding cancel_all
places-cancel_all id [] q v = refl
places-cancel_all id (j ∷ js) q v =
    places-cancel_all id js (cancel q j).0 (cancel-IsValid q j v) ∙ places-cancel id q j v

-- The ids of the requests that a run submits.
abbrev pub submitted : List Event → List String
submitted [] = []
submitted (executes id now ∷ es) = id ∷ submitted es
submitted (e ∷ es) = submitted es

places-step :
    (id : String) (q : RequestQueue) (e : Event)
    → IsNew q e
    → IsValid q
    → places id (step q e) ≡ places id q + occurs id (submitted (e ∷ []))
unfolding step finish handle_timeout clear_pending
places-step id q (executes j now) n v = omega (arith, places-execute id q j now n.0 n.1 v)
places-step id q (finishes j ok) n v = elim (Bool-cases (has j q.active)) [
  | inl a ↦ rw a (omega (arith, places-settle_active id q j _ a v))
  | inr a ↦ rw a (omega arith)
]
places-step id q (times_out j) n v = elim (Bool-cases (has j q.active)) [
  | inl a ↦ rw a (omega (arith, places-settle_active id q j _ a v))
  | inr a ↦ rw a (omega arith)
]
places-step id q (cancels j) n v = omega (arith, places-cancel id q j v)
places-step id q clears_pending n v = omega (arith, places-cancel_all id (keys q.pending) q v)

places-run :
    (id : String) (q : RequestQueue) (es : List Event)
    → AllNew q es
    → IsValid q
    → places id (run q es) ≡ places id q + occurs id (submitted es)
unfolding run
places-run id q [] n v = omega arith
places-run id q (e ∷ es) n v =
    places-run id (step q e) es n.1 (step-IsValid q e n.0 v)
    ∙ omega (arith, places-step id q e n.0 v, split e)
  where
    split :
        (e : Event)
        → occurs id (submitted (e ∷ es)) ≡ occurs id (submitted (e ∷ [])) + occurs id (submitted es)
    split (executes j now) = omega arith
    split (finishes j ok) = omega arith
    split (times_out j) = omega arith
    split (cancels j) = omega arith
    split clears_pending = omega arith

-- Whatever requests, results, timeouts and cancellations a new queue sees, if each request comes
-- with a new id: however often an id was submitted, it is found so often among the waiting, the
-- active and the settled requests together. So no request is lost, and none is settled twice or
-- while it waits or is active.
pub run-places :
    (m : Option ℤ) (t : Option ℕ) (es : List Event) (id : String)
    → AllNew (new m t) es
    → let q = run (new m t) es in
      occurs id (ids q.queue) + (occurs id (keys q.active) + occurs id (settled_ids q))
      ≡ occurs id (submitted es)
unfolding new
run-places m t es id n = omega (arith, places-run id (new m t) es n (new-IsValid m t))
