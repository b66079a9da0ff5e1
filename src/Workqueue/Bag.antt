-- ===== src/Workqueue/Bag.antt =====
-- Tasks up to their order: what a caller of workqueue/workqueue.go sees of the tasks that wait.
use mathlib.Core.Bool.{Bool-set}
use mathlib.Core.Logic.{∥∥₁_elim}
use mathlib.Core.List.{Permᴰ}
use mathlib.Core.List.Perm
use mathlib.Core.Quot
use mathlib.Core.Quot.{Quot, Quot-set}
use workqueue_modules.Prelude.{
  ◌≡◌, refl, ap, ◌∙◌, Bool, false, ◌||◌, List, [], ◌∷◌, Perm, arith, leb,
}
use workqueue_modules.Workqueue.{Time, Task}

abbrev pub Bag : Type 0
Bag = Quot (λ (ts us : List Task). Perm ts us)

abbrev pub of_list : List Task → Bag
of_list = Quot.mk

pub of_list-perm : {ts us : List Task} → Perm ts us → of_list ts ≡ of_list us
of_list-perm p = Quot.sound p

-- One task more.
unfoldable pub put : Task → Bag → Bag
put t = Quot.lift Quot-set (λ ts. of_list (t ∷ ts)) (λ ts us p. Quot.sound (Perm.cons t p))

unfoldable pub some_due : Time → List Task → Bool
some_due now [] = false
some_due now (t ∷ ts) = leb t.run_at now || some_due now ts

pub some_due-Permᴰ :
    {ts us : List Task} (now : Time) → Permᴰ ts us → some_due now ts ≡ some_due now us
unfolding some_due
some_due-Permᴰ now Permᴰ.nil = refl
some_due-Permᴰ now (Permᴰ.trans p q) = some_due-Permᴰ now p ∙ some_due-Permᴰ now q
some_due-Permᴰ now (Permᴰ.cons {b = u} {l₁ = ts} same p) =
    ap (λ (t : Task). leb t.run_at now || some_due now ts) same
    ∙ ap (λ b. leb u.run_at now || b) (some_due-Permᴰ now p)
some_due-Permᴰ now (Permᴰ.swap p q) =
    let same = ap (λ (t : Task). leb t.run_at now) p in
    let same' = ap (λ (t : Task). leb t.run_at now) q in ground (arith, same, same')

-- Whether a task that waits is due.
unfoldable pub has_due : Time → Bag → Bool
has_due now =
    Quot.lift Bool-set (some_due now) (λ ts us p. ∥∥₁_elim p (Bool-set _ _) (some_due-Permᴰ now))
