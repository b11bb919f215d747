-- ===== src/Controller/Workers/Registry.antt =====
-- The worker registry: its invariant, what each message changes, and which workers are online.
use mlx_serving.Prelude.{
  ◌≡◌, refl, sym, Bool, true, false, not, none, some, List, [], ◌∷◌, String, ◌==◌, string_eq,
  filter_b, arith, Option-cases, Bool-cases, inl, inr, ==-cases,
}
use mlx_serving.JsMap.{
  get, put, delete, values, get-put, get-delete_ne, Distinct, put-Distinct, delete-Distinct,
}
use mlx_serving.Controller.Workers.{
  offline, WorkerInfo, WorkerRegistry, is_online, is_offline, new_worker, re_register, add_worker,
  update_worker, remove_worker, mark_offline, get_online_workers, clear, Message, registers, beats,
  removes, marks_offline, clears, step, run,
}

-- Every entry stands under its worker's id.
abbrev pub Keyed : WorkerRegistry → Type 0
Keyed [] = Unit
Keyed ((k, w) ∷ m) = (w.worker_id ≡ k) × Keyed m

pub record IsValid (workers : WorkerRegistry) : Type 0 where
  pub distinct : Distinct workers
  pub keyed : Keyed workers

get-Keyed :
    (k : String) (m : WorkerRegistry) {w : WorkerInfo}
    → Keyed m
    → get k m ≡ some w
    → w.worker_id ≡ k
unfolding get
get-Keyed k [] d h = cc
get-Keyed k ((j, v) ∷ m) {w} d h = ground (arith, string_eq.test_iff j k, get-Keyed k m {w = w} d.1)

put-Keyed :
    (k : String) (w : WorkerInfo) (m : WorkerRegistry)
    → w.worker_id ≡ k
    → Keyed m
    → Keyed (put k w m)
unfolding put
put-Keyed k w [] e d = (e, tt)
put-Keyed k w ((j, v) ∷ m) e d = elim (==-cases j k) [
  | inl p ↦ rw p.0 (ground arith, d.1)
  | inr p ↦ rw p.0 (d.0, put-Keyed k w m e d.1)
]

delete-Keyed : (k : String) (m : WorkerRegistry) → Keyed m → Keyed (delete k m)
unfolding delete
delete-Keyed k [] d = tt
delete-Keyed k ((j, v) ∷ m) d = elim (==-cases j k) [
  | inl p ↦ rw p.0 d.1
  | inr p ↦ rw p.0 (d.0, delete-Keyed k m d.1)
]

put-IsValid :
    (k : String) (w : WorkerInfo) (m : WorkerRegistry)
    → w.worker_id ≡ k
    → IsValid m
    → IsValid (put k w m)
put-IsValid k w m e v = record {
  distinct = put-Distinct k w m v.distinct;
  keyed = put-Keyed k w m e v.keyed;
}

step-IsValid : (workers : WorkerRegistry) (m : Message) → IsValid workers → IsValid (step workers m)
unfolding step add_worker update_worker remove_worker mark_offline clear
step-IsValid workers (registers g) v = elim (Option-cases (get g.worker_id workers)) [
  | inl e ↦ rw (e, add_worker) (put-IsValid g.worker_id _ workers (unfold new_worker in refl) v)
  | inr (w, e) ↦
      rw (e, add_worker)
        (put-IsValid g.worker_id _ workers
          (unfold re_register in get-Keyed g.worker_id workers v.keyed e) v)
]
step-IsValid workers (beats h) v = elim (Option-cases (get h.worker_id workers)) [
  | inl e ↦ rw (e, update_worker) v
  | inr (w, e) ↦
      rw (e, update_worker)
        (put-IsValid h.worker_id _ workers (get-Keyed h.worker_id workers v.keyed e) v)
]
step-IsValid workers (removes id) v = elim (Option-cases (get id workers)) [
  | inl e ↦ rw (e, remove_worker) v
  | inr (w, e) ↦
      rw (e, remove_worker)
        (record {
          distinct = delete-Distinct id workers v.distinct;
          keyed = delete-Keyed id workers v.keyed;
        })
]
step-IsValid workers (marks_offline id) v = elim (Option-cases (get id workers)) [
  | inl e ↦ rw (e, mark_offline) v
  | inr (w, e) ↦ elim (Bool-cases (is_offline w)) [
    | inl o ↦ rw (e, mark_offline) (rw o v)
    | inr o ↦
        rw (e, mark_offline) (rw o (put-IsValid id _ workers (get-Keyed id workers v.keyed e) v))
  ]
]
step-IsValid workers clears v = record { distinct = tt; keyed = tt }

run-IsValid_from :
    (workers : WorkerRegistry) (ms : List Message) → IsValid workers → IsValid (run workers ms)
unfolding run
run-IsValid_from workers [] v = v
run-IsValid_from workers (m ∷ ms) v =
    run-IsValid_from (step workers m) ms (step-IsValid workers m v)

-- Whatever messages an empty registry receives, no worker has two entries, and every entry stands
-- under its worker's id.
pub run_workers-IsValid : (ms : List Message) → IsValid (run [] ms)
run_workers-IsValid ms = run-IsValid_from [] ms (record { distinct = tt; keyed = tt })

-- The messages that concern the worker `id` alone.
abbrev pub IsFor : String → Message → Type 0
IsFor id (registers g) = g.worker_id ≡ id
IsFor id (beats h) = h.worker_id ≡ id
IsFor id (removes j) = j ≡ id
IsFor id (marks_offline j) = j ≡ id
IsFor id clears = ⊥

get-put_ne :
    (j k : String) (w : WorkerInfo) (m : WorkerRegistry)
    → (k == j) ≡ false
    → get j (put k w m) ≡ get j m
get-put_ne j k w m n = ground (arith, get-put j k w m)

-- A message that concerns one worker leaves the entry of every other worker as it was.
pub get-step_ne :
    (workers : WorkerRegistry) (m : Message) (id j : String)
    → IsValid workers
    → IsFor id m
    → (id == j) ≡ false
    → get j (step workers m) ≡ get j workers
unfolding step add_worker update_worker remove_worker mark_offline
get-step_ne workers (registers g) id j v f n = grind (arith, get-put_ne, get-delete_ne)
get-step_ne workers (beats h) id j v f n = grind (arith, get-put_ne, get-delete_ne)
get-step_ne workers (removes i) id j v f n = grind (arith, get-put_ne, get-delete_ne)
get-step_ne workers (marks_offline i) id j v f n = grind (arith, get-put_ne, get-delete_ne)
get-step_ne workers clears id j v f n = absurd f

abbrev is_other : String → WorkerInfo → Bool
is_other id w = not (w.worker_id == id)

others_absent :
    (id : String) (m : WorkerRegistry)
    → Keyed m
    → get id m ≡ none
    → filter_b (is_other id) (filter_b is_online (values m)) ≡ filter_b is_online (values m)
unfolding get
others_absent id [] k h = refl
others_absent id ((j, w) ∷ m) k h = ground (arith, others_absent id m k.1)

others_offline :
    (id : String) (m : WorkerRegistry) {w : WorkerInfo}
    → IsValid m
    → get id m ≡ some w
    → is_offline w ≡ true
    → filter_b (is_other id) (filter_b is_online (values m)) ≡ filter_b is_online (values m)
unfolding get
others_offline id [] v h o = cc
others_offline id ((j, x) ∷ m) {w} v h o = ground (
  arith,
  string_eq.test_iff j id,
  others_absent id m v.keyed.1,
  others_offline id m {w = w} (record { distinct = v.distinct.1; keyed = v.keyed.1 }),
)

others_put :
    (id : String) (m : WorkerRegistry) (w w' : WorkerInfo)
    → IsValid m
    → get id m ≡ some w
    → is_online w' ≡ false
    → filter_b is_online (values (put id w' m))
      ≡ filter_b (is_other id) (filter_b is_online (values m))
unfolding get put
others_put id [] w w' v h o = cc
others_put id ((j, x) ∷ m) w w' v h o = ground (
  arith,
  string_eq.test_iff j id,
  others_absent id m v.keyed.1,
  others_put id m w w' (record { distinct = v.distinct.1; keyed = v.keyed.1 }),
)

-- Marking a worker offline takes it, and it alone, out of the online workers, whose order stays.
pub get_online_workers-mark_offline :
    (workers : WorkerRegistry) (id : String)
    → IsValid workers
    → get_online_workers (mark_offline workers id)
      ≡ filter_b (λ w. not (w.worker_id == id)) (get_online_workers workers)
unfolding get_online_workers mark_offline
get_online_workers-mark_offline workers id v = elim (Option-cases (get id workers)) [
  | inl e ↦ rw (e, mark_offline) (sym (others_absent id workers v.keyed e))
  | inr (w, e) ↦ elim (Bool-cases (is_offline w)) [
    | inl o ↦ rw (e, mark_offline) (rw o (sym (others_offline id workers v e o)))
    | inr o ↦
        rw (e, mark_offline)
          (rw o (others_put id workers w (record w { status = offline }) v e refl))
  ]
]
