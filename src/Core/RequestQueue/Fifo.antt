-- ===== src/Core/RequestQueue/Fifo.antt =====
-- The order in which the core request queue starts requests.
use mlx_serving.Prelude.{
  ℕ, ◌≡◌, refl, sym, ap, ◌∙◌, subst, true, false, Option, List, [], ◌∷◌, ◌++◌, String, ◌==◌,
  string_eq, length, Bool-cases, inl, inr,
}
use mathlib.Core.List.{Sublistᴰ, append-nil, append_assoc}
use mathlib.Core.List.Sublistᴰ
use mlx_serving.Prelude.Int.{ℤ}
use mlx_serving.JsMap.{has, keys}
use mlx_serving.Core.RequestQueue.{
  QueuedRequest, RequestQueue, Settlement, below, activate, process_from, process_queue, execute,
  settle_active, remove_first, cancel_pending, cancel, finish, handle_timeout, cancel_all,
  clear_pending, Event, executes, finishes, times_out, cancels, clears_pending, step, run, new,
  cancelled,
}
use mlx_serving.Core.RequestQueue.Invariant.{Fits, IsValid, activate-Fits, has-index_head}
use mlx_serving.Core.RequestQueue.Preserved.{
  AllNew, IsNew, submit, submit-Fits, release, release-Fits, cancel-IsValid, step-IsValid,
  new-IsValid,
}
use mlx_serving.Core.RequestQueue.Ledger.{ids, submitted}

-- The requests that were started and those that wait, each in order.
abbrev line_with : List QueuedRequest → RequestQueue → List String
line_with l q = q.started ++ ids l

abbrev line : RequestQueue → List String
line q = line_with q.queue q

line-activate :
    (r : QueuedRequest) (l : List QueuedRequest) (q : RequestQueue)
    → line_with l (activate r q) ≡ line_with (r ∷ l) q
unfolding activate
line-activate r l q = append_assoc q.started (r.id ∷ []) (ids l)

line-process_from :
    (l : List QueuedRequest) (q : RequestQueue) → Fits l q → line (process_from l q) ≡ line_with l q
unfolding process_from
line-process_from [] q f = refl
line-process_from (r ∷ l) q f = elim (Bool-cases (below q.max_concurrent (length q.active))) [
  | inl b ↦ rw b (
      rw (ap (has r.id) f.indexed ∙ has-index_head r l)
        (line-process_from l (activate r q) (activate-Fits r l q f b) ∙ line-activate r l q))
  | inr b ↦ rw b refl
]

ids-append : (l : List QueuedRequest) (r : QueuedRequest) → ids (l ++ r ∷ []) ≡ ids l ++ r.id ∷ []
ids-append [] r = refl
ids-append (x ∷ xs) r = ap (λ t. x.id ∷ t) (ids-append xs r)

line-execute :
    (q : RequestQueue) (j : String) (now : ℕ)
    → has j q.pending ≡ false
    → has j q.active ≡ false
    → IsValid q
    → line (execute q j now) ≡ line q ++ j ∷ []
unfolding execute process_queue
line-execute q j now np na v =
    let r : QueuedRequest = record { id = j; timestamp = now } in
    line-process_from (q.queue ++ r ∷ []) (submit q j now) (submit-Fits q j now np na v)
    ∙ ap (λ t. q.started ++ t) (ids-append q.queue r)
    ∙ sym (append_assoc q.started (ids q.queue) (j ∷ []))

line-settle_active :
    (q : RequestQueue) (j : String) (how : Settlement)
    → has j q.active ≡ true
    → IsValid q
    → line (settle_active q j how) ≡ line q
unfolding settle_active process_queue
line-settle_active q j how a v =
    line-process_from q.queue (release q j how) (release-Fits q j how a v)

Sublist-remove_first :
    (k : String) (l : List QueuedRequest) → Sublistᴰ (ids (remove_first k l)) (ids l)
unfolding remove_first
Sublist-remove_first k [] = Sublistᴰ.slnil
Sublist-remove_first k (x ∷ xs) = elim (Bool-cases (x.id == k)) [
  | inl e ↦ rw e (Sublistᴰ.cons (Sublistᴰ.refl (ids xs)))
  | inr e ↦ rw e (Sublistᴰ.cons-cons refl (Sublist-remove_first k xs))
]

Sublist-of_eq : {xs ys : List String} → xs ≡ ys → Sublistᴰ xs ys
Sublist-of_eq {xs} e = subst (λ ys. Sublistᴰ xs ys) e (Sublistᴰ.refl xs)

line-cancel : (q : RequestQueue) (j : String) → IsValid q → Sublistᴰ (line (cancel q j).0) (line q)
unfolding cancel cancel_pending
line-cancel q j v = elim (Bool-cases (has j q.pending)) [
  | inl p ↦ rw p (Sublistᴰ.append (Sublistᴰ.refl q.started) (Sublist-remove_first j q.queue))
  | inr p ↦ elim (Bool-cases (has j q.active)) [
    | inl a ↦ rw (p, a) (Sublist-of_eq (line-settle_active q j cancelled a v))
    | inr a ↦ rw (p, a) (Sublistᴰ.refl (line q))
  ]
]

line-cancel_all :
    (js : List String) (q : RequestQueue) → IsValid q → Sublistᴰ (line (cancel_all js q)) (line q)
unfolding cancel_all
line-cancel_all [] q v = Sublistᴰ.refl (line q)
line-cancel_all (j ∷ js) q v =
    Sublistᴰ.trans (line-cancel_all js (cancel q j).0 (cancel-IsValid q j v)) (line-cancel q j v)

line-step :
    (q : RequestQueue) (e : Event)
    → IsNew q e
    → IsValid q
    → Sublistᴰ (line (step q e)) (line q ++ submitted (e ∷ []))
unfolding step finish handle_timeout clear_pending
line-step q (executes j now) n v = Sublist-of_eq (line-execute q j now n.0 n.1 v)
line-step q (finishes j ok) n v = elim (Bool-cases (has j q.active)) [
  | inl a ↦ rw a (Sublist-of_eq (line-settle_active q j _ a v ∙ sym (append-nil (line q))))
  | inr a ↦ rw a (Sublist-of_eq (sym (append-nil (line q))))
]
line-step q (times_out j) n v = elim (Bool-cases (has j q.active)) [
  | inl a ↦ rw a (Sublist-of_eq (line-settle_active q j _ a v ∙ sym (append-nil (line q))))
  | inr a ↦ rw a (Sublist-of_eq (sym (append-nil (line q))))
]
line-step q (cancels j) n v =
    Sublistᴰ.trans (line-cancel q j v) (Sublist-of_eq (sym (append-nil (line q))))
line-step q clears_pending n v =
    Sublistᴰ.trans (line-cancel_all (keys q.pending) q v)
      (Sublist-of_eq (sym (append-nil (line q))))

submitted-cons :
    (e : Event) (es : List Event) → submitted (e ∷ es) ≡ submitted (e ∷ []) ++ submitted es
submitted-cons (executes j now) es = refl
submitted-cons (finishes j ok) es = refl
submitted-cons (times_out j) es = refl
submitted-cons (cancels j) es = refl
submitted-cons clears_pending es = refl

line-run :
    (q : RequestQueue) (es : List Event)
    → AllNew q es
    → IsValid q
    → Sublistᴰ (line (run q es)) (line q ++ submitted es)
unfolding run
line-run q [] n v = Sublist-of_eq (sym (append-nil (line q)))
line-run q (e ∷ es) n v = Sublistᴰ.trans (line-run (step q e) es n.1 (step-IsValid q e n.0 v)) (
    Sublistᴰ.trans (Sublistᴰ.append (line-step q e n.0 v) (Sublistᴰ.refl (submitted es))) (
      Sublist-of_eq (
        append_assoc (line q) (submitted (e ∷ [])) (submitted es)
        ∙ ap (λ t. line q ++ t) (sym (submitted-cons e es)))))

-- Whatever requests, results, timeouts and cancellations a new queue sees, if each request comes
-- with a new id: the requests that were started, in the order in which they were, and then those
-- that wait, in the queue's order, are some of the submitted requests in the order of submission.
-- So requests start first come, first served.
pub run-started :
    (m : Option ℤ) (t : Option ℕ) (es : List Event)
    → AllNew (new m t) es
    → Sublistᴰ ((run (new m t) es).started ++ ids (run (new m t) es).queue) (submitted es)
unfolding new
run-started m t es n = line-run (new m t) es n (new-IsValid m t)
