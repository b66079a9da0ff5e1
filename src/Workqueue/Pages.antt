-- ===== src/Workqueue/Pages.antt =====
-- ListDeadTasks of memory_workqueue/workqueue.go and nats_workqueue/workqueue.go: what a page of the
-- dead letters is.
use workqueue_modules.Prelude.{
  ℕ, zero, suc, ◌≤◌, ◌≡◌, ap, refl, List, [], ◌∷◌, arith, length, take, drop,
}
use workqueue_modules.Prelude.Int.{ℤ, pos, negsuc}
use workqueue_modules.Workqueue.{Task}

pub take_all : (n : ℕ) (l : List Task) → length l ≤ n → take n l ≡ l
take_all zero [] h = refl
take_all zero (t ∷ l) h = absurd (omega arith)
take_all (suc n) [] h = refl
take_all (suc n) (t ∷ l) h = ap (◌∷◌ t) (take_all n l (omega arith))

pub drop_all : (n : ℕ) (l : List Task) → length l ≤ n → drop n l ≡ []
drop_all zero [] h = refl
drop_all zero (t ∷ l) h = absurd (omega arith)
drop_all (suc n) [] h = refl
drop_all (suc n) (t ∷ l) h = drop_all n l (omega arith)

-- The dead letters from `from` on, at most `limit` of them where the limit is positive.
abbrev pub page_of : ℤ → ℕ → List Task → List Task
page_of (pos zero) from dead = drop from dead
page_of (pos (suc n)) from dead = take (suc n) (drop from dead)
page_of (negsuc n) from dead = drop from dead
