-- ===== src/Nats/Subscription/Sound.antt =====
-- nats_workqueue/workqueue.go: what holds in every history of a subscription.
use mathlib.Core.Option.{some-injective}
use workqueue_modules.Prelude.{
  ℕ, ◌≤◌, ◌≡◌, ap, sym, ◌∙◌, subst, refl, Bool, true, false, some, List, arith, inl, inr,
  Bool-cases,
}
use workqueue_modules.Prelude.Int.{pos_part}
use workqueue_modules.Workqueue.Options.{ConsumeOption, new_consume_options}
use workqueue_modules.Nats.Subscription.{
  Subscription, subscribe, close_stop, Steps, arrives, takes_slot, hands_back, handles,
  unsubscribes, closes, drains, Reaches, begins, steps, stops,
}

-- Of a subscription with `n` slots.
pub record IsSound (n : ℕ) (p : Subscription) : Type 0 where
  pub size : p.capacity ≡ n
  pub bounded : p.running ≤ n
  pub same : p.once ≡ p.stopped
  pub told : p.unsubscribed ≡ true → p.stopped ≡ true
  pub quiet : p.closed ≡ true → (p.unsubscribed ≡ true) × (p.waiting ≡ false)
  pub finished : p.done ≡ true → (p.closed ≡ true) × (p.running ≡ 0)

pub clash : {b : Bool} → b ≡ true → b ≡ false → ⊥
clash t f = absurd (ground (arith, t, f))

pub Steps-IsSound : (n : ℕ) (p p' : Subscription) → IsSound n p → Steps p p' → IsSound n p'
Steps-IsSound n p p' v (arrives w u e) = subst (IsSound n) (sym e) (record {
  size = v.size;
  bounded = v.bounded;
  same = v.same;
  told = v.told;
  quiet = λ h. absurd (clash (v.quiet h).0 u);
  finished = v.finished;
})
Steps-IsSound n p p' v (takes_slot w r e) = subst (IsSound n) (sym e) (record {
  size = v.size;
  bounded = omega (arith, v.size, r);
  same = v.same;
  told = v.told;
  quiet = λ h. absurd (clash w (v.quiet h).1);
  finished = λ h. absurd (clash w (v.quiet (v.finished h).0).1);
})
Steps-IsSound n p p' v (hands_back w s e) = subst (IsSound n) (sym e) (record {
  size = v.size;
  bounded = v.bounded;
  same = v.same;
  told = v.told;
  quiet = λ h. ((v.quiet h).0, refl);
  finished = v.finished;
})
Steps-IsSound n p p' v (handles k r e) = subst (IsSound n) (sym e) (record {
  size = v.size;
  bounded = omega (arith, v.bounded, r);
  same = v.same;
  told = v.told;
  quiet = v.quiet;
  finished = λ h. absurd (omega (arith, (v.finished h).1, r));
})
Steps-IsSound n p p' v (unsubscribes s u e) = subst (IsSound n) (sym e) (record {
  size = v.size;
  bounded = v.bounded;
  same = v.same;
  told = λ _. s;
  quiet = λ h. (refl, (v.quiet h).1);
  finished = v.finished;
})
Steps-IsSound n p p' v (closes u w c e) = subst (IsSound n) (sym e) (record {
  size = v.size;
  bounded = v.bounded;
  same = v.same;
  told = v.told;
  quiet = λ _. (u, w);
  finished = λ h. (refl, (v.finished h).1);
})
Steps-IsSound n p p' v (drains c r d e) = subst (IsSound n) (sym e) (record {
  size = v.size;
  bounded = v.bounded;
  same = v.same;
  told = v.told;
  quiet = v.quiet;
  finished = λ _. (c, r);
})

-- The first statement of Stop leaves both true, whether Stop was called before or not.
close_stop-closed :
    (n : ℕ) (p : Subscription)
    → IsSound n p
    → close_stop p ≡ some (record p { once = true; stopped = true })
unfolding close_stop
close_stop-closed n p v = elim (Bool-cases p.once) [
  | inl t ↦
      let shut : p.stopped ≡ true = sym v.same ∙ t in
      simp (close_stop, t) (ap some (λ i. record p { once = t i; stopped = shut i }))
  | inr f ↦
      let open_still : p.stopped ≡ false = sym v.same ∙ f in simp (close_stop, f, open_still) refl
]

close_stop-IsSound :
    (n : ℕ) (p p' : Subscription) → IsSound n p → close_stop p ≡ some p' → IsSound n p'
close_stop-IsSound n p p' v h =
    subst (IsSound n) (some-injective _ _ (sym (close_stop-closed n p v) ∙ h)) (record {
      size = v.size;
      bounded = v.bounded;
      same = refl;
      told = λ _. refl;
      quiet = v.quiet;
      finished = v.finished;
    })

pub Reaches-IsSound :
    (opts : List ConsumeOption) (p : Subscription)
    → Reaches (subscribe opts) p
    → IsSound (pos_part (new_consume_options opts).concurrency) p
unfolding subscribe
Reaches-IsSound opts _ begins = record {
  size = refl;
  bounded = omega arith;
  same = refl;
  told = λ h. absurd (ground (arith, h));
  quiet = λ h. absurd (ground (arith, h));
  finished = λ h. absurd (ground (arith, h));
}
Reaches-IsSound opts _ (steps q r path s) = Steps-IsSound _ q r (Reaches-IsSound opts q path) s
Reaches-IsSound opts _ (stops q r path s) = close_stop-IsSound _ q r (Reaches-IsSound opts q path) s

-- Once the done channel is closed, nothing happens but calls of Stop.
done_still : (n : ℕ) (p p' : Subscription) → IsSound n p → p.done ≡ true → ¬ Steps p p'
done_still n p p' v d (arrives w u e) = clash (v.quiet (v.finished d).0).0 u
done_still n p p' v d (takes_slot w r e) = clash w (v.quiet (v.finished d).0).1
done_still n p p' v d (hands_back w s e) = clash w (v.quiet (v.finished d).0).1
done_still n p p' v d (handles k r e) = omega (arith, (v.finished d).1, r)
done_still n p p' v d (unsubscribes s u e) = clash (v.quiet (v.finished d).0).0 u
done_still n p p' v d (closes u w c e) = clash (v.finished d).0 c
done_still n p p' v d (drains c r f e) = absurd (ground (arith, d, f))

-- In every history of a subscription: at most as many handlers run as the resolved options say;
-- Stop never closes a closed channel, however often it is called; and when the done channel is
-- closed, the stop channel is closed, no handler runs, no message waits in the callback, and no
-- step is left.
pub subscription_safe :
    (opts : List ConsumeOption) (p : Subscription)
    → Reaches (subscribe opts) p
    → (p.running ≤ pos_part (new_consume_options opts).concurrency)
      × ((p' : Subscription) × (close_stop p ≡ some p') × (p'.stopped ≡ true))
      × (p.done ≡ true
          → (p.stopped ≡ true)
            × (p.running ≡ 0)
            × (p.waiting ≡ false)
            × ((p' : Subscription) → ¬ Steps p p'))
subscription_safe opts p path =
    let v = Reaches-IsSound opts p path in
    (
      v.bounded,
      (record p { once = true; stopped = true }, close_stop-closed _ p v, refl),
      λ d.
          let (c, r) = v.finished d in
          let (u, w) = v.quiet c in (v.told u, r, w, λ p'. done_still _ p p' v d),
    )
