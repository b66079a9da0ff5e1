-- ===== src/Nats/Subscription/Tests.antt =====
-- A subscription with one slot: a handler runs, a second message waits, and Stop is called.
use workqueue_modules.Prelude.{
  ℕ, ◌+◌, ◌≤◌, ◌≡◌, ◌⊎◌, refl, Bool, true, false, some, List, [], ◌∷◌, arith,
}
use workqueue_modules.Prelude.Int.{pos, pos_part}
use workqueue_modules.Workqueue.Options.{ConsumeOption, new_consume_options, with_concurrency}
use workqueue_modules.Nats.Subscription.{
  Subscription, subscribe, close_stop, Steps, arrives, takes_slot, hands_back, unsubscribes,
  Reaches, begins, steps, stops, Runs, stays, follows,
}
use workqueue_modules.Nats.Subscription.Sound.{subscription_safe}
use workqueue_modules.Nats.Subscription.Draining.{subscription_drain_ends, subscription_finishes}

abbrev one_slot : List ConsumeOption
one_slot = with_concurrency (pos 1) ∷ []

abbrev subscription : ℕ → Bool → Bool → Bool → Subscription
subscription running waiting stopped unsubscribed = record {
  capacity = 1;
  running = running;
  waiting = waiting;
  once = stopped;
  stopped = stopped;
  unsubscribed = unsubscribed;
  closed = false;
  done = false;
}

abbrev full : Subscription
full = subscription 1 true true false

to_full : Reaches (subscribe one_slot) full
unfolding subscribe close_stop new_consume_options with_concurrency
to_full =
    let p0 = subscription 0 false false false in
    let p1 = subscription 0 true false false in
    let p2 = subscription 1 false false false in
    let p3 = subscription 1 true false false in
    stops p3 full
      (steps p2 p3
        (steps p1 p2 (steps p0 p1 begins (arrives refl refl refl))
          (takes_slot refl (omega arith) refl))
        (arrives refl refl refl))
      refl

subscription_safe_example :
    (full.running ≤ pos_part (new_consume_options one_slot).concurrency)
    × ((p' : Subscription) × (close_stop full ≡ some p') × (p'.stopped ≡ true))
    × (full.done ≡ true
        → (full.stopped ≡ true)
          × (full.running ≡ 0)
          × (full.waiting ≡ false)
          × ((p' : Subscription) → ¬ Steps full p'))
subscription_safe_example = subscription_safe one_slot full to_full

abbrev stopping : Subscription
stopping = subscription 1 true true true

to_stopping : Reaches (subscribe one_slot) stopping
to_stopping = steps full stopping to_full (unsubscribes refl refl refl)

abbrev handed_back : Subscription
handed_back = subscription 1 false true true

subscription_drain_ends_example :
    (1 ≤ pos_part (new_consume_options one_slot).concurrency + 4)
    × ((handed_back.done ≡ true) ⊎ ((r : Subscription) × Steps handed_back r))
subscription_drain_ends_example =
    subscription_drain_ends one_slot stopping handed_back 1 to_stopping refl
      (follows 0 stopping handed_back handed_back (hands_back refl refl refl) (stays handed_back))

subscription_finishes_example : (n : ℕ) × (q : Subscription) × Runs n full q × (q.done ≡ true)
subscription_finishes_example = subscription_finishes one_slot full to_full refl
