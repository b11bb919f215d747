-- ===== src/Controller/Sessions/Lookup.antt =====
-- What the session registry answers, and the books that its counters keep.
use mlx_serving.Prelude.{
  ℕ, ◌+◌, ◌≤◌, ◌≡◌, Option, none, some, List, [], ◌∷◌, String, ◌==◌, string_eq, if◌then◌else◌, leb,
  ltb, is_some, arith, Option-cases, inl, inr,
}
use mlx_serving.JsMap.{
  get, has, get-put, get-delete, Distinct, put-Distinct, delete-Distinct, get-sweep, sweep-Distinct,
}
use mlx_serving.Controller.Sessions.{
  SessionEntry, SessionRegistry, SessionRegistryConfig, new, get_session, remove_sessions_by_worker,
  has_session, cleanup, Call, sets, gets, removes, removes_worker, cleans, clears, step, run,
}

-- The worker of an entry that has not expired at `now`.
abbrev pub live_worker : ℕ → Option SessionEntry → Option String
live_worker now none = none
live_worker now (some entry) = if ltb now entry.expires_at then some entry.worker_id else none

abbrev pub route : SessionRegistry → String → ℕ → Option String
route r session_id now = live_worker now (get session_id r.sessions)

pub record IsValid (r : SessionRegistry) : Type 0 where
  pub distinct : Distinct r.sessions
  pub counted : r.total_hits + r.total_misses ≡ r.total_lookups

-- A lookup changes no answer: an entry that it removes has expired, one that it touches keeps its
-- worker and its expiry.
pub route-get_session :
    (r : SessionRegistry) (session_id j : String) (now later : ℕ)
    → IsValid r
    → now ≤ later
    → route (get_session r session_id now).0 j later ≡ route r j later
unfolding get_session
route-get_session r session_id j now later v l = elim (Option-cases (get session_id r.sessions)) [
  | inl e ↦ ground arith
  | inr (x, e) ↦ ground (
    arith,
    get-delete j session_id r.sessions,
    get-put j session_id (record x { last_accessed_at = now }) r.sessions,
    string_eq.test_iff session_id j,
  )
]

-- `getSession` answers with the worker of the session's entry if there is one that has not
-- expired, `hasSession` tells whether it does, and the lookup changes no later answer for any
-- session.
pub get_session_lem :
    (r : SessionRegistry) (session_id j : String) (now later : ℕ)
    → IsValid r
    → now ≤ later
    → ((get_session r session_id now).1 ≡ route r session_id now)
      × (has_session r session_id now ≡ is_some (route r session_id now))
      × (route (get_session r session_id now).0 j later ≡ route r j later)
unfolding get_session has_session
get_session_lem r session_id j now later v l =
    (ground arith, ground arith, route-get_session r session_id j now later v l)

new-IsValid : (c : SessionRegistryConfig) → IsValid (new c)
unfolding new
new-IsValid c = record { distinct = tt; counted = omega arith }

pub step-IsValid : (r : SessionRegistry) (now : ℕ) (c : Call) → IsValid r → IsValid (step r now c)
unfolding step
step-IsValid r now (sets session_id worker_id) v = record {
  distinct = put-Distinct session_id _ r.sessions v.distinct;
  counted = v.counted;
}
step-IsValid r now (gets session_id) v = elim (Option-cases (get session_id r.sessions)) [
  | inl e ↦ record { distinct = ground arith; counted = ground arith }
  | inr (x, e) ↦ record {
    distinct = ground (
      arith,
      delete-Distinct session_id r.sessions v.distinct,
      put-Distinct session_id (record x { last_accessed_at = now }) r.sessions v.distinct,
    );
    counted = ground arith;
  }
]
step-IsValid r now (removes session_id) v = record {
  distinct = ground (arith, delete-Distinct session_id r.sessions v.distinct);
  counted = ground arith;
}
step-IsValid r now (removes_worker worker_id) v = record {
  distinct = sweep-Distinct _ r.sessions v.distinct;
  counted = v.counted;
}
step-IsValid r now cleans v = record {
  distinct = sweep-Distinct _ r.sessions v.distinct;
  counted = v.counted;
}
step-IsValid r now clears v = record { distinct = tt; counted = v.counted }

run-IsValid_from : (r : SessionRegistry) (cs : List (ℕ × Call)) → IsValid r → IsValid (run r cs)
unfolding run
run-IsValid_from r [] v = v
run-IsValid_from r ((now, c) ∷ cs) v = run-IsValid_from (step r now c) cs (step-IsValid r now c v)

-- Whatever calls are made of a new registry, no session has two entries, and every lookup was
-- counted as a hit or as a miss.
pub run_sessions-IsValid :
    (c : SessionRegistryConfig) (cs : List (ℕ × Call)) → IsValid (run (new c) cs)
run_sessions-IsValid c cs = run-IsValid_from (new c) cs (new-IsValid c)

abbrev pub without : String → Option String → Option String
without w none = none
without w (some u) = if u == w then none else some u

-- After the sessions of a worker are removed no session is routed to it at any time, and every
-- session that was routed to another worker still is.
pub route-remove_sessions_by_worker :
    (r : SessionRegistry) (worker_id j : String) (later : ℕ)
    → IsValid r
    → route (remove_sessions_by_worker r worker_id).0 j later ≡ without worker_id (route r j later)
unfolding remove_sessions_by_worker
route-remove_sessions_by_worker r worker_id j later v =
    ground
      (arith, get-sweep j (λ (x : SessionEntry). x.worker_id == worker_id) r.sessions v.distinct)

-- A cleanup changes no later answer, and afterwards every entry that is left is live.
pub route-cleanup :
    (r : SessionRegistry) (now : ℕ) (j : String) (later : ℕ)
    → IsValid r
    → now ≤ later
    → (route (cleanup r now).0 j later ≡ route r j later)
      × (has j (cleanup r now).0.sessions ≡ is_some (route r j now))
unfolding cleanup
route-cleanup r now j later v l =
    let swept = get-sweep j (λ (x : SessionEntry). leb x.expires_at now) r.sessions v.distinct in
    (ground (arith, swept), ground (arith, swept))
