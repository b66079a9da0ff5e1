-- ===== src/Workqueue/Pool/Sound.antt =====
-- Consume, worker and Stop of memory_workqueue/workqueue.go: what holds in every history of a pool.
use workqueue_modules.Prelude.{
  ◌<◌, ℕ, zero, suc, ◌≡◌, ap, sym, ◌∙◌, subst, refl, Bool, true, false, some, List, [], ◌∷◌, arith,
  length, inl, inr, Bool-cases,
}
use mathlib.Core.Option.{some-injective}
use workqueue_modules.Prelude.Int.{pos_part}
use workqueue_modules.Workqueue.Options.{ConsumeOption, new_consume_options}
use workqueue_modules.Workqueue.Options.Bounds.{new_consume_options-IsUsable}
use workqueue_modules.Workqueue.Pool.{
  Phase, checking, claiming, handling, sleeping, returned, Pool, started, consume, stop, Returns,
  drained, gave_up, leaves, goes_on, claims, finds_none, completes, wakes, sees_stop, all_returned,
  Works, here, there, Steps, works, watches, Reaches, begins, steps, stops,
}

-- The number of workers that have returned.
unfoldable pub returns : List Phase → ℕ
returns [] = 0
returns (returned ∷ ws) = suc (returns ws)
returns (checking ∷ ws) = returns ws
returns (claiming ∷ ws) = returns ws
returns (handling ∷ ws) = returns ws
returns (sleeping ∷ ws) = returns ws

Works-length : (b : Bool) (ws ws' : List Phase) → Works b ws ws' → length ws' ≡ length ws
Works-length b _ _ (here w w' ws m) = refl
Works-length b _ _ (there w ws ws' s) = ap suc (Works-length b ws ws' s)

-- No worker returns before the stop channel is closed.
Works-returns : (ws ws' : List Phase) → Works false ws ws' → returns ws' ≡ returns ws
unfolding returns
Works-returns _ _ (here _ _ ws (leaves h)) = absurd (ground (arith, h))
Works-returns _ _ (here _ _ ws (goes_on h)) = refl
Works-returns _ _ (here _ _ ws claims) = refl
Works-returns _ _ (here _ _ ws finds_none) = refl
Works-returns _ _ (here _ _ ws completes) = refl
Works-returns _ _ (here _ _ ws wakes) = refl
Works-returns _ _ (here _ _ ws (sees_stop h)) = absurd (ground (arith, h))
Works-returns _ _ (there checking ws ws' s) = Works-returns ws ws' s
Works-returns _ _ (there claiming ws ws' s) = Works-returns ws ws' s
Works-returns _ _ (there handling ws ws' s) = Works-returns ws ws' s
Works-returns _ _ (there sleeping ws ws' s) = Works-returns ws ws' s
Works-returns _ _ (there returned ws ws' s) = ap suc (Works-returns ws ws' s)

-- Workers that have all returned do not move.
Works-unfinished : (b : Bool) (ws ws' : List Phase) → Works b ws ws' → all_returned ws ≡ false
unfolding all_returned
Works-unfinished b _ _ (here _ _ ws (leaves h)) = refl
Works-unfinished b _ _ (here _ _ ws (goes_on h)) = refl
Works-unfinished b _ _ (here _ _ ws claims) = refl
Works-unfinished b _ _ (here _ _ ws finds_none) = refl
Works-unfinished b _ _ (here _ _ ws completes) = refl
Works-unfinished b _ _ (here _ _ ws wakes) = refl
Works-unfinished b _ _ (here _ _ ws (sees_stop h)) = refl
Works-unfinished b _ _ (there checking ws ws' s) = refl
Works-unfinished b _ _ (there claiming ws ws' s) = refl
Works-unfinished b _ _ (there handling ws ws' s) = refl
Works-unfinished b _ _ (there sleeping ws ws' s) = refl
Works-unfinished b _ _ (there returned ws ws' s) = Works-unfinished b ws ws' s

returns-started : (n : ℕ) → returns (started n) ≡ 0
unfolding returns started
returns-started zero = refl
returns-started (suc n) = returns-started n

length-started : (n : ℕ) → length (started n) ≡ n
unfolding started
length-started zero = refl
length-started (suc n) = ap suc (length-started n)

all_returned-returns : (ws : List Phase) → all_returned ws ≡ true → returns ws ≡ length ws
unfolding returns all_returned
all_returned-returns [] h = refl
all_returned-returns (returned ∷ ws) h = ap suc (all_returned-returns ws h)
all_returned-returns (checking ∷ ws) h = absurd (ground (arith, h))
all_returned-returns (claiming ∷ ws) h = absurd (ground (arith, h))
all_returned-returns (handling ∷ ws) h = absurd (ground (arith, h))
all_returned-returns (sleeping ∷ ws) h = absurd (ground (arith, h))

-- Of a pool of `n` workers: `stopOnce` is spent exactly when the stop channel is closed, no worker
-- has returned before that, and the done channel is closed only when all have.
pub record IsSound (n : ℕ) (p : Pool) : Type 0 where
  pub size : length p.workers ≡ n
  pub same : p.once ≡ p.stopped
  pub idle : p.stopped ≡ false → returns p.workers ≡ 0
  pub finished : p.done ≡ true → all_returned p.workers ≡ true

Steps-IsSound : (n : ℕ) (p p' : Pool) → IsSound n p → Steps p p' → IsSound n p'
Steps-IsSound n p p' v (works ws w e) = subst (IsSound n) (sym e) (record {
  size = Works-length p.stopped p.workers ws w ∙ v.size;
  same = v.same;
  idle = λ open_still.
      Works-returns p.workers ws (subst (λ b. Works b p.workers ws) open_still w)
      ∙ v.idle open_still;
  finished = λ h.
      absurd (let u = Works-unfinished p.stopped p.workers ws w in ground (arith, u, v.finished h));
})
Steps-IsSound n p p' v (watches all h e) =
    subst (IsSound n) (sym e)
      (record { size = v.size; same = v.same; idle = v.idle; finished = λ _. all })

-- Stop leaves both true, whether it was called before or not.
stop-closed :
    (n : ℕ) (p : Pool) → IsSound n p → stop p ≡ some (record p { once = true; stopped = true })
unfolding stop
stop-closed n p v = elim (Bool-cases p.once) [
  | inl t ↦
      let closed : p.stopped ≡ true = sym v.same ∙ t in
      simp (stop, t) (ap some (λ i. record p { once = t i; stopped = closed i }))
  | inr f ↦ let open_still : p.stopped ≡ false = sym v.same ∙ f in simp (stop, f, open_still) refl
]

stop-IsSound : (n : ℕ) (p p' : Pool) → IsSound n p → stop p ≡ some p' → IsSound n p'
stop-IsSound n p p' v h =
    subst (IsSound n) (some-injective _ _ (sym (stop-closed n p v) ∙ h)) (record {
      size = v.size;
      same = refl;
      idle = λ open_still. absurd (ground (arith, open_still));
      finished = v.finished;
    })

pub Reaches-IsSound :
    (opts : List ConsumeOption) (p : Pool)
    → Reaches (consume opts) p
    → IsSound (pos_part (new_consume_options opts).concurrency) p
unfolding consume
Reaches-IsSound opts _ begins = record {
  size = length-started (pos_part (new_consume_options opts).concurrency);
  same = refl;
  idle = λ _. returns-started (pos_part (new_consume_options opts).concurrency);
  finished = λ h. absurd (ground (arith, h));
}
Reaches-IsSound opts _ (steps q r path s) = Steps-IsSound _ q r (Reaches-IsSound opts q path) s
Reaches-IsSound opts _ (stops q r path s) = stop-IsSound _ q r (Reaches-IsSound opts q path) s

Returns-done : (p : Pool) → Returns p false → p.done ≡ true
Returns-done p (drained h) = h
Returns-done p (gave_up h) = absurd (ground (arith, h))

stopped_when_returned :
    {n : ℕ} (p : Pool) → IsSound n p → all_returned p.workers ≡ true → 0 < n → p.stopped ≡ true
stopped_when_returned p v all positive = elim (Bool-cases p.stopped) [
  | inl t ↦ t
  | inr f ↦ absurd (omega (arith, v.idle f, v.size, positive, all_returned-returns p.workers all))
]

-- In every history of a subscription: the pool has as many workers as the resolved options say; Stop never closes a closed channel, however often it is called; and when
-- the done channel is closed, so that Stop may return nil, the stop channel is closed, all workers
-- have returned, and none moves again.
pub pool_safe :
    (opts : List ConsumeOption) (p : Pool)
    → Reaches (consume opts) p
    → (length p.workers ≡ pos_part (new_consume_options opts).concurrency)
      × ((p' : Pool) × (stop p ≡ some p') × (p'.stopped ≡ true))
      × (Returns p false
          → (p.stopped ≡ true)
            × (all_returned p.workers ≡ true)
            × ((b : Bool) (ws : List Phase) → ¬ Works b p.workers ws))
pool_safe opts p path =
    let usable = new_consume_options-IsUsable opts in
    let v = Reaches-IsSound opts p path in
    (
      v.size,
      (record p { once = true; stopped = true }, stop-closed _ p v, refl),
      λ r.
          let all = v.finished (Returns-done p r) in
          (
            stopped_when_returned p v all (omega (arith, usable.some_worker)),
            all,
            λ b ws w. absurd (let u = Works-unfinished b p.workers ws w in ground (arith, u, all)),
          ),
    )
