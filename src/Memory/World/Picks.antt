-- ===== src/Memory/World/Picks.antt =====
-- What is taken out of a list in memory_workqueue/workqueue.go, and what is left.
use mathlib.Core.List.{
  mem-cons, mem-cons_self, mem-cons_of_mem, mem-append, mem-append_left, mem-append_right, Mem-prop,
}
use mathlib.Core.Option.{some-injective}
use mathlib.Core.Logic.Or
use workqueue_modules.Prelude.{
  ℕ, zero, suc, ◌≡◌, sym, ap, subst, inl, inr, String, Option, none, some, List, [], ◌∷◌, Mem,
  arith, Option-cases,
}
use workqueue_modules.Workqueue.{Task}
use workqueue_modules.Workqueue.Contract.{IsFirst}
use workqueue_modules.Memory.World.{pick}

-- The first dead letter with an identifier, and the others, were dead letters.
pub first_Mem :
    (id : String) (dead : List Task) (t : Task) (left : List Task)
    → IsFirst id dead t left
    → Mem t dead × ((u : Task) → Mem u left → Mem u dead)
first_Mem id dead t left first = (
  subst (Mem t) (sym first.whole) (mem-append_right first.before mem-cons_self),
  λ u there. subst (Mem u) (sym first.whole) (
      Or.elim Mem-prop (mem-append.0 (subst (Mem u) first.rest there))
        (λ early. mem-append_left (t ∷ first.after) early)
        (λ late. mem-append_right first.before (mem-cons_of_mem t late))),
)

pub pick_Mem :
    {A : Type 0} (k : ℕ) (l : List A) (x : A) (rest : List A)
    → pick k l ≡ some (x, rest)
    → Mem x l × ((y : A) → Mem y rest → Mem y l)
unfolding pick
pick_Mem k [] x rest e = absurd (ground (arith, e))
pick_Mem zero (y ∷ ys) x rest e =
    let same = some-injective _ _ e in
    (
      subst (λ z. Mem z (y ∷ ys)) (ap (λ r. r.0) same) mem-cons_self,
      λ z there. mem-cons_of_mem y (subst (Mem z) (sym (ap (λ r. r.1) same)) there),
    )
pick_Mem {A} (suc k) (y ∷ ys) x rest e = elim (Option-cases (pick k ys)) [
  | inl missed ↦ absurd (
      let e' : Path (Option (A × List A)) none (some (x, rest)) = rw missed at e in
      ground (arith, e'))
  | inr ((z, others), found) ↦
      let e' : Path (Option (A × List A)) (some (z, y ∷ others)) (some (x, rest)) = rw found at e in
      let same = some-injective _ _ e' in
      let (there, kept) = pick_Mem k ys z others found in
      (
        subst (λ u. Mem u (y ∷ ys)) (ap (λ r. r.0) same) (mem-cons_of_mem y there),
        λ u inside.
            Or.elim Mem-prop (mem-cons.0 (subst (Mem u) (sym (ap (λ r. r.1) same)) inside))
              (λ first. subst (λ v. Mem v (y ∷ ys)) (sym first) mem-cons_self)
              (λ later. mem-cons_of_mem y (kept u later)),
      )
]
