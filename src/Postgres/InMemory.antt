-- ===== src/Postgres/InMemory.antt =====
-- PostgreSQL in memory, for the tests: the table of Sql.ListTable with notifications and
-- transactions.
use mathlib.Core.Bool.{Bool-set}
use mathlib.Core.List.{mem-cons, not-mem-nil, mem-cons_self}
use mathlib.Core.Logic.Or
use mathlib.Core.Option.{some-injective}
use mathlib.Core.List.Perm
use workqueue_modules.Sql.Membership.{mem-where_rows, where_rows-mem}
use workqueue_modules.Sql.ListTable.{
  ListDb, list_table, list_create, select_sorted, select_sorted_lem,
}
use workqueue_modules.Sql.{TaskRecord, where_rows, updated}
use workqueue_modules.Postgres.Store.{Postgres}
use workqueue_modules.Prelude.{
  ◌≡◌, refl, sym, ◌⊎◌, inl, inr, Bool, true, false, not, ◌&&◌, Option, none, some, List, [], ◌∷◌,
  Mem, arith, str_eq, if◌then◌else◌, Bool-cases, Option-cases,
}

abbrev free : (TaskRecord → Bool) → (TaskRecord → Bool) → TaskRecord → Bool
free locked p r = p r && not (locked r)

-- The statement fails when its order puts the row before itself.
first_of :
    ListDb
    → (TaskRecord → TaskRecord → Bool)
    → (TaskRecord → TaskRecord)
    → Option (List TaskRecord)
    → ListDb × Option (Option TaskRecord)
first_of d before f none = (d, none)
first_of d before f (some []) = (d, some none)
first_of d before f (some (c ∷ _)) =
    if before c c
    then (d, none)
    else (record d { rows = updated (λ s. str_eq s.id c.id) f d.rows }, some (some (f c)))

unfoldable pub update_first_in :
    ListDb
    → (TaskRecord → Bool)
    → (TaskRecord → Bool)
    → (TaskRecord → TaskRecord → Bool)
    → (TaskRecord → TaskRecord)
    → ListDb × Option (Option TaskRecord)
unfolding first_of
update_first_in d locked p before f =
    first_of d before f (select_sorted before (where_rows (free locked p) d.rows))

module _ (d : ListDb) (locked p : TaskRecord → Bool) (before : TaskRecord → TaskRecord → Bool)
    (f : TaskRecord → TaskRecord) where
  pub first_in_fails :
      (update_first_in d locked p before f).1 ≡ none
      → (update_first_in d locked p before f).0.rows ≡ d.rows
  unfolding update_first_in
  first_in_fails h =
      elim (Option-cases (select_sorted before (where_rows (free locked p) d.rows))) [
        | inl e ↦ rw (update_first_in, e) refl
        | inr ([], e) ↦ rw (update_first_in, e) refl
        | inr (c ∷ cs, e) ↦ elim (Bool-cases (before c c)) [
          | inl t ↦ rw (update_first_in, e, t) refl
          | inr t ↦
              let h' : some (some (f c)) ≡ none = rw (update_first_in, e, t) at h in ground arith
        ]
      ]

  pub first_in_misses :
      (update_first_in d locked p before f).1 ≡ some none
      → ((update_first_in d locked p before f).0.rows ≡ d.rows)
        × ((s : TaskRecord) → Mem s d.rows → p s ≡ true → locked s ≡ true)
  unfolding update_first_in
  first_in_misses h =
      elim (Option-cases (select_sorted before (where_rows (free locked p) d.rows))) [
        | inl e ↦ let h' : none ≡ some none = rw (update_first_in, e) at h in ground arith
        | inr ([], e) ↦ (
          rw (update_first_in, e) refl,
          λ s m holds. elim (Bool-cases (locked s)) [
            | inl t ↦ t
            | inr t ↦ absurd (
                not-mem-nil (
                  (Perm.mem_iff (select_sorted_lem before _ [] e).0).1
                    (mem-where_rows (free locked p) d.rows s m (ground arith))))
          ],
        )
        | inr (c ∷ cs, e) ↦ elim (Bool-cases (before c c)) [
          | inl t ↦ let h' : none ≡ some none = rw (update_first_in, e, t) at h in ground arith
          | inr t ↦
              let h' : some (some (f c)) ≡ some none = rw (update_first_in, e, t) at h in
              ground arith
        ]
      ]

  pub first_in_sets :
      (r : TaskRecord)
      → (update_first_in d locked p before f).1 ≡ some (some r)
      → (c : TaskRecord) × Mem c d.rows
        × (p c ≡ true)
        × (locked c ≡ false)
        × (r ≡ f c)
        × ((s : TaskRecord) → Mem s d.rows → p s ≡ true → locked s ≡ false → before s c ≡ false)
        × ((update_first_in d locked p before f).0.rows ≡ updated (λ s. str_eq s.id c.id) f d.rows)
  unfolding update_first_in
  first_in_sets r h =
      elim (Option-cases (select_sorted before (where_rows (free locked p) d.rows))) [
        | inl e ↦
            let h' : none ≡ some (some r) = rw (update_first_in, e) at h in absurd (ground arith)
        | inr ([], e) ↦
            let h' : some none ≡ some (some r) = rw (update_first_in, e) at h in
            absurd (ground arith)
        | inr (c ∷ cs, e) ↦ elim (Bool-cases (before c c)) [
          | inl t ↦
              let h' : none ≡ some (some r) = rw (update_first_in, e, t) at h in
              absurd (ground arith)
          | inr t ↦
              let (same, ordered) = select_sorted_lem before _ (c ∷ cs) e in
              let (inside, is_free) =
                where_rows-mem (free locked p) d.rows c ((Perm.mem_iff same).0 mem-cons_self) in
              let h' : some (some (f c)) ≡ some (some r) = rw (update_first_in, e, t) at h in
              (
                c,
                inside,
                ground arith,
                ground arith,
                sym (some-injective _ _ (some-injective _ _ h')),
                λ s m holds unlocked.
                    Or.elim (Bool-set _ _)
                      (mem-cons.0 (
                        (Perm.mem_iff same).1
                          (mem-where_rows (free locked p) d.rows s m (ground arith))))
                      (λ head. rw head t) (ordered.0 s),
                rw (update_first_in, e, t) refl,
              )
        ]
      ]

unfoldable pub rolled_back : {E : Type 0} → ListDb → ListDb × Option E → ListDb × Option E
rolled_back d (d', none) = (d', none)
rolled_back d (d', some e) = (d, some e)

pub rolled_back-commits :
    {E : Type 0} (d : ListDb) (x : ListDb × Option E)
    → (rolled_back d x).1 ≡ none
    → (x.1 ≡ none) × ((rolled_back d x).0.rows ≡ x.0.rows) × ((rolled_back d x).0.sent ≡ x.0.sent)
unfolding rolled_back
rolled_back-commits d (d', none) h = (refl, refl, refl)
rolled_back-commits d (d', some e) h = absurd (ground arith)

pub rolled_back-fails :
    {E : Type 0} (d : ListDb) (e e' : E) (x : ListDb × Option E)
    → (rolled_back d x).1 ≡ some e'
    → ((e' ≡ e) ⊎ (x.1 ≡ some e'))
      × ((rolled_back d x).0.rows ≡ d.rows)
      × ((rolled_back d x).0.sent ≡ d.sent)
unfolding rolled_back
rolled_back-fails d e e' (d', none) h = absurd (ground arith)
rolled_back-fails d e e' (d', some f) h = (inr h, refl, refl)

pub list_create_sends : (d : ListDb) (r : TaskRecord) → (list_create d r).0.sent ≡ d.sent
unfolding list_create
list_create_sends d r = ground arith

abbrev pub list_postgres : Postgres
list_postgres = record {
  table = list_table;
  sent = λ d. d.sent;
  update_first = update_first_in;
  pg_notify = λ d channel payload. (record d { sent = (channel, payload) ∷ d.sent }, true);
  transaction = λ d e body. rolled_back d (body d);
  notify_sends = λ d channel payload h. (refl, refl);
  notify_fails = λ d channel payload h. absurd (ground arith);
  commits = λ d e body h. rolled_back-commits d (body d) h;
  rolls_back = λ d e e' body h. rolled_back-fails d e e' (body d) h;
  first_fails = first_in_fails;
  first_misses = first_in_misses;
  first_sets = first_in_sets;
  create_sends = list_create_sends;
  update_sends = λ d p f. refl;
}
