-- ===== src/Workqueue/Pool/Trail.antt =====
-- The phases that a round of worker goes through, as steps of one worker of a pool.
use workqueue_modules.Prelude.{◌≡◌, refl, Bool, true, false, List, [], ◌∷◌}
use workqueue_modules.Workqueue.Pool.{
  Phase, checking, claiming, handling, sleeping, returned, Moves, leaves, goes_on, claims,
  finds_none, completes,
}

-- The steps lead from one phase through the listed ones, the last of which is `after`.
abbrev pub Walks : Bool → Phase → List Phase → Phase → Type 0
Walks stopped v [] after = v ≡ after
Walks stopped v (w ∷ ws) after = Moves stopped v w × Walks stopped w ws after

-- The phases of a round, by whether the stop channel is closed when it begins and whether the claim
-- gives a task.
abbrev pub visited : Bool → Bool → List Phase
visited true claimed = returned ∷ []
visited false true = claiming ∷ handling ∷ checking ∷ []
visited false false = claiming ∷ sleeping ∷ []

pub leaving : (claimed : Bool) → Walks true checking (visited true claimed) returned
leaving claimed = (leaves refl, refl)

-- A round with a delivery.
pub delivering : Walks false checking (visited false true) checking
delivering = (goes_on refl, (claims, (completes, refl)))

-- A round without one.
pub dozing : Walks false checking (visited false false) sleeping
dozing = (goes_on refl, (finds_none, refl))
