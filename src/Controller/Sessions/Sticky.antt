-- ===== src/Controller/Sessions/Sticky.antt =====
-- Session affinity: for how long a session keeps its worker.
use mlx_serving.Prelude.{
  ℕ, ◌+◌, ◌<◌, ◌≡◌, false, Option, none, some, List, [], ◌∷◌, String, ◌==◌, string_eq,
  if◌then◌else◌, leb, ltb, arith, Option-cases, inl, inr, All, ap,
}
use mlx_serving.JsMap.{get, get-put, get-put_self, get-delete_ne, get-sweep}
use mlx_serving.Controller.Sessions.{
  SessionEntry, SessionRegistry, set_session, get_session, Call, sets, gets, removes,
  removes_worker, cleans, clears, step, run,
}
use mlx_serving.Controller.Sessions.Lookup.{IsValid, step-IsValid}

-- What routing reads of an entry.
abbrev pin : Option SessionEntry → Option (String × ℕ)
pin none = none
pin (some entry) = some (entry.worker_id, entry.expires_at)

abbrev IsPinned : String → String → ℕ → SessionRegistry → Type 0
IsPinned session_id worker_id until r = pin (get session_id r.sessions) ≡ some (worker_id, until)

-- The calls that do not end a session early: none removes it, its worker or all sessions, none
-- sets it anew, and lookups and cleanups come before `until`.
abbrev pub Leaves : String → String → ℕ → ℕ × Call → Type 0
Leaves session_id worker_id until (now, sets j w) = (j == session_id) ≡ false
Leaves session_id worker_id until (now, gets j) = now < until
Leaves session_id worker_id until (now, removes j) = (j == session_id) ≡ false
Leaves session_id worker_id until (now, removes_worker w) = (worker_id == w) ≡ false
Leaves session_id worker_id until (now, cleans) = now < until
Leaves session_id worker_id until (now, clears) = ⊥

step-IsPinned :
    (r : SessionRegistry) (s w : String) (until now : ℕ) (c : Call)
    → IsValid r
    → IsPinned s w until r
    → Leaves s w until (now, c)
    → IsPinned s w until (step r now c)
unfolding step
step-IsPinned r s w until now (sets j u) v p h = ground (
  arith,
  get-put s j
      (record {
        session_id = j;
        worker_id = u;
        created_at = now;
        last_accessed_at = now;
        expires_at = now + r.config.ttl_ms;
      })
      r.sessions,
)
step-IsPinned r s w until now (gets j) v p h = elim (Option-cases (get j r.sessions)) [
  | inl e ↦ ground arith
  | inr (x, e) ↦ ground (
    arith,
    get-delete_ne s j r.sessions,
    get-put s j (record x { last_accessed_at = now }) r.sessions,
    string_eq.test_iff j s,
  )
]
step-IsPinned r s w until now (removes j) v p h = ground (arith, get-delete_ne s j r.sessions)
step-IsPinned r s w until now (removes_worker u) v p h =
    ground (arith, get-sweep s (λ (x : SessionEntry). x.worker_id == u) r.sessions v.distinct)
step-IsPinned r s w until now cleans v p h =
    ground (arith, get-sweep s (λ (x : SessionEntry). leb x.expires_at now) r.sessions v.distinct)
step-IsPinned r s w until now clears v p h = absurd h

run-IsPinned :
    (r : SessionRegistry) (s w : String) (until : ℕ) (cs : List (ℕ × Call))
    → IsValid r
    → IsPinned s w until r
    → All (Leaves s w until) cs
    → IsPinned s w until (run r cs)
unfolding run
run-IsPinned r s w until [] v p h = p
run-IsPinned r s w until ((now, c) ∷ cs) v p h =
    run-IsPinned (step r now c) s w until cs (step-IsValid r now c v)
      (step-IsPinned r s w until now c v p h.0) h.1

set_session-IsPinned :
    (r : SessionRegistry) (s w : String) (t : ℕ)
    → IsPinned s w (t + r.config.ttl_ms) (set_session r s w t)
unfolding set_session
set_session-IsPinned r s w t = ap pin (get-put_self s _ r.sessions)

get_session-pinned :
    (r : SessionRegistry) (s w : String) (until now : ℕ)
    → IsPinned s w until r
    → (get_session r s now).1 ≡ (if ltb now until then some w else none)
unfolding get_session
get_session-pinned r s w until now p = ground arith

-- A session that is set to a worker at time `t` is routed to that worker before `t + ttlMs` and
-- to none from then on, whatever calls come in between that do not end it early: none removes the
-- session, its worker or all sessions, none sets it anew, and lookups and cleanups come before
-- `t + ttlMs`.
pub get_session-sticky :
    (r : SessionRegistry) (s w : String) (t now : ℕ) (cs : List (ℕ × Call))
    → IsValid r
    → All (Leaves s w (t + r.config.ttl_ms)) cs
    → (get_session (run (set_session r s w t) cs) s now).1
      ≡ (if ltb now (t + r.config.ttl_ms) then some w else none)
unfolding set_session step
get_session-sticky r s w t now cs v h = get_session-pinned _ s w (t + r.config.ttl_ms) now (
    run-IsPinned (set_session r s w t) s w _ cs (step-IsValid r t (sets s w) v)
      (set_session-IsPinned r s w t) h)
