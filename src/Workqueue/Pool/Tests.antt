-- ===== src/Workqueue/Pool/Tests.antt =====
-- A pool of two workers: one is stopped in its sleep, the other with a task.
use mathlib.Core.Path.{refl}
use workqueue_modules.Prelude.{
  ◌+◌, ◌*◌, ◌≤◌, ◌≡◌, ◌⊎◌, Bool, true, false, some, [], ◌∷◌, List, length,
}
use workqueue_modules.Prelude.Int.{pos, pos_part}
use workqueue_modules.Workqueue.Options.{ConsumeOption, new_consume_options, with_concurrency}
use workqueue_modules.Workqueue.Pool.{
  Phase, checking, claiming, handling, sleeping, Pool, started, consume, stop, Returns, goes_on,
  claims, finds_none, all_returned, Works, here, there, Steps, works, Reaches, begins, steps, stops,
  stays, follows, wakes,
}
use workqueue_modules.Workqueue.Pool.Sound.{pool_safe}
use workqueue_modules.Workqueue.Pool.Draining.{drain_ends}

abbrev two_workers : List ConsumeOption
two_workers = with_concurrency (pos 2) ∷ []

abbrev pool : List Phase → Bool → Pool
pool ws stopped = record { workers = ws; once = stopped; stopped = stopped; done = false }

abbrev busy : Pool
busy = pool (sleeping ∷ handling ∷ []) true

to_busy : Reaches (consume two_workers) busy
unfolding consume started stop new_consume_options with_concurrency
to_busy =
    let p0 = pool (checking ∷ checking ∷ []) false in
    let p1 = pool (claiming ∷ checking ∷ []) false in
    let p2 = pool (sleeping ∷ checking ∷ []) false in
    let p3 = pool (sleeping ∷ claiming ∷ []) false in
    let p4 = pool (sleeping ∷ handling ∷ []) false in
    stops p4 busy
      (steps p3 p4
        (steps p2 p3
          (steps p1 p2 (steps p0 p1 begins (works _ (here checking claiming _ (goes_on refl)) refl))
            (works _ (here claiming sleeping _ finds_none) refl))
          (works _ (there sleeping _ _ (here checking claiming _ (goes_on refl))) refl))
        (works _ (there sleeping _ _ (here claiming handling _ claims)) refl))
      refl

pool_safe_example :
    (length busy.workers ≡ pos_part (new_consume_options two_workers).concurrency)
    × ((p' : Pool) × (stop busy ≡ some p') × (p'.stopped ≡ true))
    × (Returns busy false
        → (busy.stopped ≡ true)
          × (all_returned busy.workers ≡ true)
          × ((b : Bool) (ws : List Phase) → ¬ Works b busy.workers ws))
pool_safe_example = pool_safe two_workers busy to_busy

abbrev woken : Pool
woken = pool (checking ∷ handling ∷ []) true

drain_ends_example :
    (1 ≤ 3 * length busy.workers + 1) × ((woken.done ≡ true) ⊎ ((r : Pool) × Steps woken r))
drain_ends_example =
    drain_ends 1 busy woken refl
      (follows 0 busy woken woken (works _ (here sleeping checking _ wakes) refl) (stays woken))
