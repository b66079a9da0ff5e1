-- ===== src/Memory/World/Ledger.antt =====
-- memory_workqueue/workqueue.go: the tasks that a queue and its workers have, gain and lose.
use mathlib.Core.Option.{some-injective}
use workqueue_modules.Prelude.{
  ℕ, zero, suc, ◌+◌, ◌≡◌, ap, inl, inr, String, str_eq, Option, none, some, List, [], ◌∷◌, arith,
  Option-cases, if◌then◌else◌,
}
use workqueue_modules.Workqueue.{Task}
use workqueue_modules.Memory.World as W
use workqueue_modules.Memory.World.{World, Act, pick, handed, completed, act, history, start}
use workqueue_modules.Memory.World.Count.{one_if, held, taken}
use workqueue_modules.Memory.{delete_dead_task}

-- The tasks in flight with a queue and an identifier.
abbrev pub hit : String → String → String × Task → ℕ
hit n id (name, t) = if str_eq name n then one_if (str_eq t.id id) else 0

unfoldable pub flown : String → String → List (String × Task) → ℕ
flown n id [] = 0
flown n id (x ∷ l) = hit n id x + flown n id l

pub flown-pick :
    (n id : String) (k : ℕ) (l : List (String × Task)) (x : String × Task)
    (rest : List (String × Task))
    → pick k l ≡ some (x, rest)
    → flown n id l ≡ hit n id x + flown n id rest
unfolding pick flown
flown-pick n id k [] x rest e = absurd (ground (arith, e))
flown-pick n id zero (y ∷ ys) x rest e =
    let same = some-injective _ _ e in
    omega (arith, ap (λ r. hit n id r.0) same, ap (λ r. flown n id r.1) same)
flown-pick n id (suc k) (y ∷ ys) x rest e = elim (Option-cases (pick k ys)) [
  | inl missed ↦ absurd (
      let e' : Path (Option ((String × Task) × List (String × Task))) none (some (x, rest)) =
        rw missed at e in
      ground (arith, e'))
  | inr ((z, others), found) ↦
      let e' : Path (Option ((String × Task) × List (String × Task))) (some (z, y ∷ others))
          (some (x, rest)) =
        rw found at e in
      let same = some-injective _ _ e' in
      omega (
        arith,
        flown-pick n id k ys z others found,
        ap (λ r. hit n id r.0) same,
        ap (λ r. flown n id r.1) same,
      )
]

-- The tasks of a queue with an identifier: waiting, dead or in flight.
abbrev pub present : World → String → String → ℕ
present w n id = held w.backend n id + flown n id w.in_flight

unfoldable pub gained : Act → String → String → ℕ
gained (W.enqueues name payload opts new_id now) n id =
    if str_eq name n then one_if (str_eq new_id id) else 0
gained (W.claims name now) n id = 0
gained (W.completes k result o now) n id = 0
gained (W.requeues name sought now) n id = 0
gained (W.deletes name sought) n id = 0
gained (W.lists name limit offset) n id = 0

abbrev pub finished :
    String → String → Option String → Option ((String × Task) × List (String × Task)) → ℕ
finished n id none (some (x, rest)) = hit n id x
finished n id none none = 0
finished n id (some message) picked = 0

unfoldable pub lost : World → Act → String → String → ℕ
lost w (W.enqueues name payload opts new_id now) n id = 0
lost w (W.claims name now) n id = 0
lost w (W.completes k result o now) n id = finished n id result (pick k w.in_flight)
lost w (W.requeues name sought now) n id = 0
lost w (W.lists name limit offset) n id = 0
lost w (W.deletes name sought) n id =
    if str_eq name n then taken id (delete_dead_task w.backend name sought).1 sought else 0

unfoldable pub all_gained : List Act → String → String → ℕ
all_gained [] n id = 0
all_gained (a ∷ acts) n id = gained a n id + all_gained acts n id

unfoldable pub all_lost : World → List Act → String → String → ℕ
all_lost w [] n id = 0
all_lost w (a ∷ acts) n id = lost w a n id + all_lost (act w a) acts n id
