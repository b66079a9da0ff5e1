-- ===== src/Sql/Keys.antt =====
-- gorm_workqueue/model.go: the identifier is the primary key of the table.
use mathlib.Core.HLevel.{×_prop, Π_prop, ⊥_prop}
use mathlib.Core.Bool.{Bool-set}
use mathlib.Core.Logic.{∥∥₁_elim}
use mathlib.Core.Logic.Or
use mathlib.Core.List.{mem-cons, not-mem-nil, mem-cons_self, mem-cons_of_mem, Permᴰ}
use mathlib.Core.List.Perm
use workqueue_modules.Prelude.{
  ◌≡◌, ◌≢◌, refl, sym, ap, ◌∙◌, String, Bool, true, List, [], ◌∷◌, Mem, Perm, if_intro,
}
use workqueue_modules.Sql.{TaskRecord, updated, deleted}
use workqueue_modules.Sql.Membership.{updated-mem_id, deleted-mem}

-- The identifier is the primary key.
abbrev pub IsKeyed : List TaskRecord → Type 0
IsKeyed [] = ◌≡◌ {A = Bool} true true
IsKeyed (r ∷ rs) = ((s : TaskRecord) → Mem s rs → s.id ≢ r.id) × IsKeyed rs

-- What a test says of a row, it says of each row with the same identifier.
pub one_row :
    (p : TaskRecord → Bool) (rs : List TaskRecord) (r w : TaskRecord)
    → IsKeyed rs
    → Mem r rs
    → Mem w rs
    → r.id ≡ w.id
    → p w ≡ true
    → p r ≡ true
one_row p [] r w keyed m k e h = absurd (not-mem-nil m)
one_row p (x ∷ rs) r w (apart, keyed) m k e h =
    Or.elim (Bool-set _ _) (mem-cons.0 m)
      (λ r_here.
        Or.elim (Bool-set _ _) (mem-cons.0 k) (λ w_here. ap p (r_here ∙ sym w_here) ∙ h)
          (λ w_below. absurd (apart w w_below (sym e ∙ ap (λ t. t.id) r_here))))
      (λ r_below.
        Or.elim (Bool-set _ _) (mem-cons.0 k)
          (λ w_here. absurd (apart r r_below (e ∙ ap (λ t. t.id) w_here)))
          (λ w_below. one_row p rs r w keyed r_below w_below e h))

abbrev id_of : TaskRecord → String
id_of r = r.id

IsKeyed-prop : (rs : List TaskRecord) → IsProp (IsKeyed rs)
IsKeyed-prop [] = Bool-set _ _
IsKeyed-prop (r ∷ rs) = ×_prop (Π_prop λ s. Π_prop λ m. Π_prop λ e. ⊥_prop) (IsKeyed-prop rs)

Permᴰ-IsKeyed : {xs ys : List TaskRecord} → Permᴰ xs ys → IsKeyed xs → IsKeyed ys
Permᴰ-IsKeyed Permᴰ.nil h = h
Permᴰ-IsKeyed (Permᴰ.trans first second) h = Permᴰ-IsKeyed second (Permᴰ-IsKeyed first h)
Permᴰ-IsKeyed (Permᴰ.cons x tails) (apart, keyed) = (
  λ s m e. apart s ((Perm.mem_iff ∣ tails ∣₁).1 m) (e ∙ ap id_of (sym x)),
  Permᴰ-IsKeyed tails keyed,
)
Permᴰ-IsKeyed (Permᴰ.swap {a = a} {b = b} x y) (apart, (below, keyed)) = (
  λ s m e.
      Or.elim ⊥_prop (mem-cons.0 m)
        (λ same. apart b mem-cons_self (ap id_of y ∙ sym e ∙ ap id_of same ∙ ap id_of (sym x)))
        (λ rest. below s rest (e ∙ ap id_of (sym y))),
  (λ s m e. apart s (mem-cons_of_mem b m) (e ∙ ap id_of (sym x)), keyed),
)

pub Perm-IsKeyed : (xs ys : List TaskRecord) → Perm xs ys → IsKeyed xs → IsKeyed ys
Perm-IsKeyed xs ys p h = ∥∥₁_elim p (IsKeyed-prop ys) (λ d. Permᴰ-IsKeyed d h)

pub updated-IsKeyed :
    (p : TaskRecord → Bool) (f : TaskRecord → TaskRecord) (rs : List TaskRecord)
    → ((r : TaskRecord) → (f r).id ≡ r.id)
    → IsKeyed rs
    → IsKeyed (updated p f rs)
unfolding updated
updated-IsKeyed p f [] same h = h
updated-IsKeyed p f (r ∷ rs) same (apart, keyed) = (
  λ s m e. ∥∥₁_elim (updated-mem_id p f rs s same m) ⊥_prop (λ found. apart found.0 found.1 (
      sym found.2
      ∙ e
      ∙ if_intro (λ (x : TaskRecord). x.id ≡ r.id) (p r) (λ t. same r) (λ t. refl))),
  updated-IsKeyed p f rs same keyed,
)

pub deleted-IsKeyed :
    (p : TaskRecord → Bool) (rs : List TaskRecord) → IsKeyed rs → IsKeyed (deleted p rs)
unfolding deleted
deleted-IsKeyed p [] h = h
deleted-IsKeyed p (r ∷ rs) (apart, keyed) =
    if_intro IsKeyed (p r) (λ e. deleted-IsKeyed p rs keyed)
      (λ e. (λ s m. apart s (deleted-mem p rs s m), deleted-IsKeyed p rs keyed))
