-- ===== src/Nats/Subscription/Draining.antt =====
-- nats_workqueue/workqueue.go: the end of a subscription whose ConsumeContext was stopped.
use native.Mathlib.Decide.{ℕ_discrete}
use workqueue_modules.Prelude.{
  ℕ, zero, suc, ◌+◌, ◌-◌, ◌*◌, ◌≤◌, ◌<◌, ◌≡◌, ap, sym, subst, refl, Bool, true, false, List, arith,
  ◌⊎◌, inl, inr, Bool-cases,
}
use workqueue_modules.Nats.Subscription.{
  Subscription, Steps, arrives, takes_slot, hands_back, handles, unsubscribes, closes, drains, Runs,
  stays, follows,
}
use workqueue_modules.Nats.Subscription.Sound.{IsSound, Reaches-IsSound, Steps-IsSound, clash}
use workqueue_modules.Nats.Subscription.{subscribe, Reaches}
use workqueue_modules.Prelude.Int.{pos_part}
use workqueue_modules.Workqueue.Options.{ConsumeOption, new_consume_options}

unfoldable pub one_if : Bool → ℕ
one_if true = 1
one_if false = 0

-- The steps that are left, at most: a waiting message may take a slot and be handled.
unfoldable pub effort : Subscription → ℕ
unfolding one_if
effort p = 2 * one_if p.waiting + p.running + (1 - one_if p.closed) + (1 - one_if p.done)

Steps-effort :
    (p p' : Subscription)
    → p.unsubscribed ≡ true
    → Steps p p'
    → (p'.unsubscribed ≡ true) × (effort p' < effort p)
unfolding effort one_if
Steps-effort p p' u (arrives w f e) = absurd (clash u f)
Steps-effort p p' u (takes_slot w r e) =
    subst (λ q. (q.unsubscribed ≡ true) × (effort q < effort p)) (sym e)
      (u, omega (arith, ap one_if w))
Steps-effort p p' u (hands_back w s e) =
    subst (λ q. (q.unsubscribed ≡ true) × (effort q < effort p)) (sym e)
      (u, omega (arith, ap one_if w))
Steps-effort p p' u (handles k r e) =
    subst (λ q. (q.unsubscribed ≡ true) × (effort q < effort p)) (sym e) (u, omega (arith, r))
Steps-effort p p' u (unsubscribes s f e) = absurd (clash u f)
Steps-effort p p' u (closes t w c e) =
    subst (λ q. (q.unsubscribed ≡ true) × (effort q < effort p)) (sym e)
      (u, omega (arith, ap one_if c))
Steps-effort p p' u (drains c r d e) =
    subst (λ q. (q.unsubscribed ≡ true) × (effort q < effort p)) (sym e)
      (u, omega (arith, ap one_if d))

Runs-effort :
    (m n : ℕ) (p q : Subscription)
    → IsSound m p
    → p.unsubscribed ≡ true
    → Runs n p q
    → IsSound m q × (q.unsubscribed ≡ true) × (n + effort q ≤ effort p)
Runs-effort m n _ _ v u (stays p) = (v, u, omega arith)
Runs-effort m _ _ _ v u (follows n p q r s run) =
    let (u', less) = Steps-effort p q u s in
    let (v', u'', bound) = Runs-effort m n q r (Steps-IsSound m p q v s) u' run in
    (v', u'', omega (arith, less, bound))

one_if_le : (b : Bool) → one_if b ≤ 1
unfolding one_if
one_if_le true = omega arith
one_if_le false = omega arith

effort_le : (m : ℕ) (p : Subscription) → IsSound m p → effort p ≤ m + 4
unfolding effort
effort_le m p v = omega (arith, v.bounded, one_if_le p.waiting)

ends_or_goes_on :
    (m : ℕ) (q : Subscription)
    → IsSound m q
    → q.unsubscribed ≡ true
    → (q.done ≡ true) ⊎ ((r : Subscription) × Steps q r)
ends_or_goes_on m q v u = elim (Bool-cases q.done) [
  | inl t ↦ inl t
  | inr open_done ↦ elim (Bool-cases q.waiting) [
    | inl w ↦ inr (record q { waiting = false }, hands_back w (v.told u) refl)
    | inr idle ↦ elim (ℕ_discrete q.running 0) [
      | no some_run ↦ inr (
        record q { running = q.running - 1 },
        handles (q.running - 1) (omega (arith, some_run)) refl,
      )
      | yes none_run ↦ elim (Bool-cases q.closed) [
        | inl c ↦ inr (record q { done = true }, drains c none_run open_done refl)
        | inr c ↦ inr (record q { closed = true }, closes u idle c refl)
      ]
    ]
  ]
]

drains_within :
    (k m : ℕ) (p : Subscription)
    → IsSound m p
    → p.unsubscribed ≡ true
    → effort p ≤ k
    → (n : ℕ) × (q : Subscription) × Runs n p q × (q.done ≡ true)
drains_within zero m p v u small = elim (ends_or_goes_on m p v u) [
  | inl t ↦ (0, p, stays p, t)
  | inr (r, s) ↦ absurd (let (u', less) = Steps-effort p r u s in omega (arith, less, small))
]
drains_within (suc k) m p v u small = elim (ends_or_goes_on m p v u) [
  | inl t ↦ (0, p, stays p, t)
  | inr (r, s) ↦
      let (u', less) = Steps-effort p r u s in
      let (n, q, run, t) =
        drains_within k m r (Steps-IsSound m p r v s) u' (omega (arith, less, small)) in
      (suc n, q, follows n p r q s run, t)
]

-- Once Stop has stopped the ConsumeContext, every run of the subscription has at most four steps more
-- than the resolved concurrency, and a run that cannot go on has closed the done channel.
pub subscription_drain_ends :
    (opts : List ConsumeOption) (p q : Subscription) (n : ℕ)
    → Reaches (subscribe opts) p
    → p.unsubscribed ≡ true
    → Runs n p q
    → (n ≤ pos_part (new_consume_options opts).concurrency + 4)
      × ((q.done ≡ true) ⊎ ((r : Subscription) × Steps q r))
subscription_drain_ends opts p q n path u run =
    let v = Reaches-IsSound opts p path in
    let (v', u', bound) = Runs-effort _ n p q v u run in
    (omega (arith, bound, effort_le _ p v), ends_or_goes_on _ q v' u')

-- From every state of a subscription on which Stop was called, there is a run at whose end the done
-- channel is closed.
pub subscription_finishes :
    (opts : List ConsumeOption) (p : Subscription)
    → Reaches (subscribe opts) p
    → p.stopped ≡ true
    → (n : ℕ) × (q : Subscription) × Runs n p q × (q.done ≡ true)
subscription_finishes opts p path h =
    let v = Reaches-IsSound opts p path in
    elim (Bool-cases p.unsubscribed) [
      | inl u ↦ drains_within (effort p) _ p v u (omega arith)
      | inr f ↦
          let s : Steps p (record p { unsubscribed = true }) = unsubscribes h f refl in
          let p' = record p { unsubscribed = true } in
          let (n, q, run, t) =
            drains_within (effort p') _ p' (Steps-IsSound _ p p' v s) refl (omega arith) in
          (suc n, q, follows n p p' q s run, t)
    ]
