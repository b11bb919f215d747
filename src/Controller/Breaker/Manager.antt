-- ===== src/Controller/Breaker/Manager.antt =====
-- `CircuitBreakerManager` of src/distributed/controller/circuit-breaker.ts. A breaker that
-- `getBreaker` returns is a reference into the map, so a call on it changes the map: `call_on`.
use mlx_serving.Prelude.{
  ℕ, ◌≡◌, refl, Option, none, some, [], ◌∷◌, String, ◌==◌, string_eq, if◌then◌else◌, Option-cases,
  arith, inl, inr,
}
use mlx_serving.JsMap.{JsMap, get, put, delete, get-put, Distinct, get-delete}
use mlx_serving.Controller.Breaker.{Config, Breaker, closed, new, step, reset, Call}

pub record Manager : Type 0 where
  pub breakers : JsMap String Breaker
  pub config : Config

unfoldable pub get_breaker : Manager → String → Manager × Breaker
get_breaker m id = elim (get id m.breakers) [
  | none ↦ let b = new id m.config in (record m { breakers = put id b m.breakers }, b)
  | some b ↦ (m, b)
]

-- A method call on the breaker that `getBreaker` returns.
unfoldable pub call_on : Manager → String → ℕ → Call → Manager
unfolding get_breaker
call_on m id now c =
    let (m', b) = get_breaker m id in record m' { breakers = put id (step b now c) m'.breakers }

unfoldable pub remove_breaker : Manager → String → Manager
remove_breaker m id = record m { breakers = delete id m.breakers }

unfoldable pub reset_entries : JsMap String Breaker → JsMap String Breaker
reset_entries [] = []
reset_entries ((id, b) ∷ m) = (id, reset b) ∷ reset_entries m

unfoldable pub reset_all : Manager → Manager
unfolding reset_entries
reset_all m = record m { breakers = reset_entries m.breakers }

-- The breaker that the next `getBreaker` for the worker answers with.
unfoldable pub breaker_of : Manager → String → Breaker
unfolding get_breaker
breaker_of m id = (get_breaker m id).1

abbrev or_new : String → Config → Option Breaker → Breaker
or_new id c none = new id c
or_new id c (some b) = b

breaker_of_lem :
    (m : Manager) (id : String) → breaker_of m id ≡ or_new id m.config (get id m.breakers)
unfolding breaker_of
breaker_of_lem m id = ground arith

get-call_on :
    (m : Manager) (id j : String) (now : ℕ) (c : Call)
    → get j (call_on m id now c).breakers
      ≡ (if id == j then some (step (breaker_of m id) now c) else get j m.breakers)
unfolding call_on breaker_of
get-call_on m id j now c =
    let b = breaker_of m id in
    ground (
      arith,
      get-put j id (step b now c) (put id (new id m.config) m.breakers),
      get-put j id (step b now c) m.breakers,
      get-put j id (new id m.config) m.breakers,
    )

config-call_on :
    (m : Manager) (id : String) (now : ℕ) (c : Call) → (call_on m id now c).config ≡ m.config
unfolding call_on
config-call_on m id now c = ground arith

-- A call for one worker steps that worker's breaker, made new if there was none, and leaves the
-- breaker of every other worker as it was.
pub breaker_of-call_on :
    (m : Manager) (id j : String) (now : ℕ) (c : Call)
    → breaker_of (call_on m id now c) j
      ≡ (if id == j then step (breaker_of m id) now c else breaker_of m j)
breaker_of-call_on m id j now c = ground (
  arith,
  breaker_of_lem (call_on m id now c) j,
  breaker_of_lem m j,
  get-call_on m id j now c,
  config-call_on m id now c,
)

get-reset_entries-none :
    (id : String) (m : JsMap String Breaker) → get id m ≡ none → get id (reset_entries m) ≡ none
unfolding get reset_entries
get-reset_entries-none id [] h = refl
get-reset_entries-none id ((j, b) ∷ m) h = ground (arith, get-reset_entries-none id m)

get-reset_entries-some :
    (id : String) (m : JsMap String Breaker) {b : Breaker}
    → get id m ≡ some b
    → get id (reset_entries m) ≡ some (reset b)
unfolding get reset_entries
get-reset_entries-some id [] h = cc
get-reset_entries-some id ((j, w) ∷ m) {b} h = ground (arith, get-reset_entries-some id m {b = b})

-- After `resetAll` every worker's breaker is closed.
pub breaker_of-reset_all :
    (m : Manager) (id : String) → (breaker_of (reset_all m) id).state ≡ closed
unfolding reset_all
breaker_of-reset_all m id = elim (Option-cases (get id m.breakers)) [
  | inl e ↦
      unfold new in
      ground (arith, breaker_of_lem (reset_all m) id, get-reset_entries-none id m.breakers)
  | inr (b, e) ↦
      unfold reset in
      ground (arith, breaker_of_lem (reset_all m) id, get-reset_entries-some id m.breakers {b = b})
]

-- A removed worker gets a new breaker at its next call, and no other worker's breaker changes.
pub breaker_of-remove_breaker :
    (m : Manager) (id j : String)
    → Distinct m.breakers
    → breaker_of (remove_breaker m id) j ≡ (if id == j then new j m.config else breaker_of m j)
unfolding remove_breaker
breaker_of-remove_breaker m id j d =
    ground (
      arith,
      breaker_of_lem (remove_breaker m id) j,
      breaker_of_lem m j,
      get-delete j id m.breakers,
    )
