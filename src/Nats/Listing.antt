-- ===== src/Nats/Listing.antt =====
-- nats_workqueue/workqueue.go: what the visitors of ListDeadTasks and findDeadTask collect.
use mathlib.Core.List.{append_assoc, append-nil}
use workqueue_modules.Prelude.{
  ℕ, zero, suc, ◌+◌, ◌≡◌, refl, sym, ap, ◌∙◌, true, false, Bool-cases, List, [], ◌∷◌, ◌++◌, arith,
  length, take, inl, inr, length-append, Option, some, none, String, str_eq, ltb, if◌then◌else◌,
}
use workqueue_modules.Prelude.Int.{ℤ, pos, negsuc, leb_ℤ, ltb_ℤ}
use workqueue_modules.Workqueue.{Task}
use workqueue_modules.Workqueue.Pages.{page_of, drop_all}
use workqueue_modules.Nats.Scan.{DeadEntry, page_visit, find_visit}
use workqueue_modules.Nats.Walk.{visit_all}

-- The tasks of the entries.
abbrev pub tasks_of : List DeadEntry → List Task
tasks_of [] = []
tasks_of (e ∷ es) = e.task ∷ tasks_of es

-- Beyond the offset, without a limit.
collects_all :
    (limit : ℤ) (offset : ℕ) (out : List Task) (es : List DeadEntry)
    → leb_ℤ limit (pos 0) ≡ true
    → visit_all (page_visit offset limit) (offset, out) es ≡ (offset, out ++ tasks_of es)
unfolding visit_all page_visit
collects_all limit offset out [] h = ap (λ l. (offset, l)) (sym (append-nil out))
collects_all limit offset out (e ∷ es) h =
    let past : ltb offset offset ≡ false = ground arith in
    rw (past, h)
      (collects_all limit offset (out ++ e.task ∷ []) es h
        ∙ ap (λ l. (offset, l)) (append_assoc out (e.task ∷ []) (tasks_of es)))

-- Beyond the offset, with room for `suc room` more.
collects_some :
    (n offset room : ℕ) (out : List Task) (es : List DeadEntry)
    → length out + suc room ≡ suc n
    → visit_all (page_visit offset (pos (suc n))) (offset, out) es
      ≡ (offset, out ++ take (suc room) (tasks_of es))
unfolding visit_all page_visit
collects_some n offset room out [] h = ap (λ l. (offset, l)) (sym (append-nil out))
collects_some n offset zero out (e ∷ es) h =
    let past : ltb offset offset ≡ false = ground arith in
    let positive : leb_ℤ (pos (suc n)) (pos 0) ≡ false = ground arith in
    let full : ltb_ℤ (pos (length (out ++ e.task ∷ []))) (pos (suc n)) ≡ false =
      ground (arith, length-append out (e.task ∷ [])) in
    rw (past, positive, full) refl
collects_some n offset (suc room) out (e ∷ es) h =
    let past : ltb offset offset ≡ false = ground arith in
    let positive : leb_ℤ (pos (suc n)) (pos 0) ≡ false = ground arith in
    let fits : ltb_ℤ (pos (length (out ++ e.task ∷ []))) (pos (suc n)) ≡ true =
      ground (arith, length-append out (e.task ∷ [])) in
    rw (past, positive, fits)
      (collects_some n offset room (out ++ e.task ∷ []) es
          (omega (arith, length-append out (e.task ∷ [])))
        ∙ ap (λ l. (offset, l)) (append_assoc out (e.task ∷ []) (take (suc room) (tasks_of es))))

-- At the offset, with nothing collected.
collects_page :
    (limit : ℤ) (offset : ℕ) (es : List DeadEntry)
    → (visit_all (page_visit offset limit) (offset, []) es).1 ≡ page_of limit 0 (tasks_of es)
collects_page (pos zero) offset es = ap (λ p. p.1) (collects_all (pos 0) offset [] es refl)
collects_page (pos (suc n)) offset es = ap (λ p. p.1) (collects_some n offset n [] es (omega arith))
collects_page (negsuc k) offset es =
    ap (λ p. p.1) (collects_all (negsuc k) offset [] es (ground arith))

page_of-nil : (limit : ℤ) (k : ℕ) → page_of limit k [] ≡ []
page_of-nil (pos zero) k = drop_all k [] (omega arith)
page_of-nil (pos (suc n)) k = ap (take (suc n)) (drop_all k [] (omega arith))
page_of-nil (negsuc n) k = drop_all k [] (omega arith)

page_of-cons :
    (limit : ℤ) (k : ℕ) (t : Task) (ts : List Task)
    → page_of limit (suc k) (t ∷ ts) ≡ page_of limit k ts
page_of-cons (pos zero) k t ts = refl
page_of-cons (pos (suc n)) k t ts = refl
page_of-cons (negsuc n) k t ts = refl

-- Before the offset.
pub visits_page :
    (limit : ℤ) (offset skipped to_go : ℕ) (es : List DeadEntry)
    → skipped + to_go ≡ offset
    → (visit_all (page_visit offset limit) (skipped, []) es).1 ≡ page_of limit to_go (tasks_of es)
unfolding visit_all page_visit
visits_page limit offset skipped zero es h =
    let there : skipped ≡ offset = omega arith in rw there (collects_page limit offset es)
visits_page limit offset skipped (suc to_go) [] h = sym (page_of-nil limit (suc to_go))
visits_page limit offset skipped (suc to_go) (e ∷ es) h =
    let before : ltb skipped offset ≡ true = ground arith in
    rw (before, page_of-cons limit to_go e.task (tasks_of es))
      (visits_page limit offset (suc skipped) to_go es (omega arith))

-- The first entry with an identifier.
unfoldable pub first_with_id : String → List DeadEntry → Option DeadEntry
first_with_id id [] = none
first_with_id id (e ∷ es) = if str_eq e.task.id id then some e else first_with_id id es

pub finds_first :
    (id : String) (es : List DeadEntry) → visit_all (find_visit id) none es ≡ first_with_id id es
unfolding visit_all find_visit first_with_id
finds_first id [] = refl
finds_first id (e ∷ es) = elim (Bool-cases (str_eq e.task.id id)) [
  | inl t ↦ rw t refl
  | inr f ↦ rw f (finds_first id es)
]
