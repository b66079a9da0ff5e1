-- ===== src/Workqueue/Pool/Draining.antt =====
-- worker and Stop of memory_workqueue/workqueue.go: the end of a pool whose stop channel is closed.
use workqueue_modules.Prelude.{
  ℕ, zero, suc, ◌+◌, ◌*◌, ◌≤◌, ◌<◌, ◌≡◌, ap, sym, subst, refl, Bool, true, false, List, [], ◌∷◌,
  arith, length, ◌⊎◌, inl, inr, Bool-cases,
}
use workqueue_modules.Workqueue.Pool.{
  Phase, checking, claiming, handling, sleeping, returned, Pool, Moves, leaves, goes_on, claims,
  finds_none, completes, wakes, sees_stop, all_returned, Works, here, there, Steps, works, watches,
  Runs, stays, follows,
}

-- The steps that a worker can take once the stop channel is closed.
unfoldable pub to_go : Phase → ℕ
to_go checking = 1
to_go claiming = 3
to_go handling = 2
to_go sleeping = 2
to_go returned = 0

unfoldable pub effort : List Phase → ℕ
effort [] = 0
effort (w ∷ ws) = to_go w + effort ws

unfoldable pub watching : Bool → ℕ
watching true = 0
watching false = 1

Moves-to_go : (w w' : Phase) → Moves true w w' → to_go w' < to_go w
unfolding to_go
Moves-to_go _ _ (leaves h) = omega arith
Moves-to_go _ _ (goes_on h) = absurd (ground (arith, h))
Moves-to_go _ _ claims = omega arith
Moves-to_go _ _ finds_none = omega arith
Moves-to_go _ _ completes = omega arith
Moves-to_go _ _ wakes = omega arith
Moves-to_go _ _ (sees_stop h) = omega arith

Works-effort : (ws ws' : List Phase) → Works true ws ws' → effort ws' < effort ws
unfolding effort
Works-effort _ _ (here w w' ws m) = omega (arith, Moves-to_go w w' m)
Works-effort _ _ (there w ws ws' s) = omega (arith, Works-effort ws ws' s)

-- A step leaves the stop channel closed and less to do.
Steps-effort :
    (p p' : Pool)
    → p.stopped ≡ true
    → Steps p p'
    → (p'.stopped ≡ true)
      × (effort p'.workers + watching p'.done < effort p.workers + watching p.done)
unfolding watching
Steps-effort p p' h (works ws w e) =
    subst
      (λ q.
        (q.stopped ≡ true)
        × (effort q.workers + watching q.done < effort p.workers + watching p.done))
      (sym e) (h, omega (arith, Works-effort p.workers ws (subst (λ b. Works b p.workers ws) h w)))
Steps-effort p p' h (watches all d e) =
    subst
      (λ q.
        (q.stopped ≡ true)
        × (effort q.workers + watching q.done < effort p.workers + watching p.done))
      (sym e) (h, omega (arith, ap watching d))

-- A pool that is not done can take a step.
Works-some : (ws : List Phase) → all_returned ws ≡ false → (ws' : List Phase) × Works true ws ws'
unfolding all_returned
Works-some [] h = absurd (ground (arith, h))
Works-some (checking ∷ ws) h = (returned ∷ ws, here checking returned ws (leaves refl))
Works-some (claiming ∷ ws) h = (sleeping ∷ ws, here claiming sleeping ws finds_none)
Works-some (handling ∷ ws) h = (checking ∷ ws, here handling checking ws completes)
Works-some (sleeping ∷ ws) h = (returned ∷ ws, here sleeping returned ws (sees_stop refl))
Works-some (returned ∷ ws) h =
    let (ws', s) = Works-some ws h in (returned ∷ ws', there returned ws ws' s)

Steps-some : (p : Pool) → p.stopped ≡ true → p.done ≡ false → (p' : Pool) × Steps p p'
Steps-some p h d = elim (Bool-cases (all_returned p.workers)) [
  | inl t ↦ (record p { done = true }, watches t d refl)
  | inr f ↦
      let (ws, w) = Works-some p.workers f in
      (record p { workers = ws }, works ws (subst (λ b. Works b p.workers ws) (sym h) w) refl)
]

effort-length : (ws : List Phase) → effort ws ≤ 3 * length ws
unfolding effort to_go
effort-length [] = omega arith
effort-length (checking ∷ ws) = omega (arith, effort-length ws)
effort-length (claiming ∷ ws) = omega (arith, effort-length ws)
effort-length (handling ∷ ws) = omega (arith, effort-length ws)
effort-length (sleeping ∷ ws) = omega (arith, effort-length ws)
effort-length (returned ∷ ws) = omega (arith, effort-length ws)

Runs-effort :
    (n : ℕ) (p q : Pool)
    → p.stopped ≡ true
    → Runs n p q
    → (q.stopped ≡ true)
      × (n + (effort q.workers + watching q.done) ≤ effort p.workers + watching p.done)
Runs-effort n _ _ h (stays p) = (h, omega arith)
Runs-effort _ _ _ h (follows n p q r s run) =
    let (h', less) = Steps-effort p q h s in
    let (h'', bound) = Runs-effort n q r h' run in (h'', omega (arith, less, bound))

watching_le : (b : Bool) → watching b ≤ 1
unfolding watching
watching_le true = omega arith
watching_le false = omega arith

ends_or_goes_on : (q : Pool) → q.stopped ≡ true → (q.done ≡ true) ⊎ ((r : Pool) × Steps q r)
ends_or_goes_on q h = elim (Bool-cases q.done) [ inl t ↦ inl t | inr f ↦ inr (Steps-some q h f) ]

drains_within :
    (k : ℕ) (p : Pool)
    → p.stopped ≡ true
    → effort p.workers + watching p.done ≤ k
    → (n : ℕ) × (q : Pool) × Runs n p q × (q.done ≡ true)
drains_within zero p h small = elim (ends_or_goes_on p h) [
  | inl t ↦ (0, p, stays p, t)
  | inr (r, s) ↦ absurd (let (h', less) = Steps-effort p r h s in omega (arith, less, small))
]
drains_within (suc k) p h small = elim (ends_or_goes_on p h) [
  | inl t ↦ (0, p, stays p, t)
  | inr (r, s) ↦
      let (h', less) = Steps-effort p r h s in
      let (n, q, run, t) = drains_within k r h' (omega (arith, less, small)) in
      (suc n, q, follows n p r q s run, t)
]

-- Once the stop channel is closed, every run of the pool has at most three steps for each worker and
-- one more, and a run that cannot go on has closed the done channel.
pub drain_ends :
    (n : ℕ) (p q : Pool)
    → p.stopped ≡ true
    → Runs n p q
    → (n ≤ 3 * length p.workers + 1) × ((q.done ≡ true) ⊎ ((r : Pool) × Steps q r))
drain_ends n p q h run =
    let (h', bound) = Runs-effort n p q h run in
    (omega (arith, bound, watching_le p.done, effort-length p.workers), ends_or_goes_on q h')

-- From every pool whose stop channel is closed there is a run at whose end the done channel is
-- closed.
pub drain_finishes :
    (p : Pool) → p.stopped ≡ true → (n : ℕ) × (q : Pool) × Runs n p q × (q.done ≡ true)
drain_finishes p h = drains_within (effort p.workers + watching p.done) p h (omega arith)
