-- ===== src/Sql/ListTable.antt =====
-- A task table in memory, and an encoding that knows the one map `lang`: the tests of the database
-- backends run on them.
use mathlib.Core.List.Perm
use mathlib.Core.List.{mem-cons, not-mem-nil}
use mathlib.Core.Logic.Or
use mathlib.Core.HLevel.{⊥_prop}
use mathlib.Core.Option.{some-injective}
use mathlib.Core.Bool.{Bool-set}
use text.Mathlib.TextEquality.{eq_iff}
use Prim.{tt}
use workqueue_modules.Prelude.{
  ℕ, ◌≡◌, ◌≢◌, refl, sym, ap, subst, ◌∙◌, inl, inr, String, Bool, true, false, not, ◌&&◌, ◌||◌,
  Option, none, some, List, [], ◌∷◌, Mem, Perm, length, drop, if◌then◌else◌, arith, str_eq,
  Bool-cases, Option-cases, if_intro,
}
use workqueue_modules.Sql.{
  TaskRecord, Json, Table, where_rows, updated, deleted, IsOrdered, limited,
}

abbrev Before : Type 0
Before = TaskRecord → TaskRecord → Bool

-- Insertion sort.
unfoldable pub put_sorted : Before → TaskRecord → List TaskRecord → List TaskRecord
put_sorted before r [] = r ∷ []
put_sorted before r (s ∷ rs) = if before s r then s ∷ put_sorted before r rs else r ∷ s ∷ rs

unfoldable pub sort : Before → List TaskRecord → List TaskRecord
sort before [] = []
sort before (r ∷ rs) = put_sorted before r (sort before rs)

put_sorted-perm :
    (before : Before) (r : TaskRecord) (rs : List TaskRecord)
    → Perm (put_sorted before r rs) (r ∷ rs)
unfolding put_sorted
put_sorted-perm before r [] = Perm.refl _
put_sorted-perm before r (s ∷ rs) =
    if_intro (λ x. Perm x (r ∷ s ∷ rs)) (before s r)
      (λ e. Perm.trans (Perm.cons s (put_sorted-perm before r rs)) (Perm.swap r s rs))
      (λ e. Perm.refl _)

sort-perm : (before : Before) (rs : List TaskRecord) → Perm (sort before rs) rs
unfolding sort
sort-perm before [] = Perm.refl _
sort-perm before (r ∷ rs) =
    Perm.trans (put_sorted-perm before r (sort before rs)) (Perm.cons r (sort-perm before rs))

-- The test of IsOrdered.
unfoldable pub none_before : Before → TaskRecord → List TaskRecord → Bool
none_before before r [] = true
none_before before r (s ∷ rs) = not (before s r) && none_before before r rs

unfoldable pub is_ordered : Before → List TaskRecord → Bool
is_ordered before [] = true
is_ordered before (r ∷ rs) = none_before before r rs && is_ordered before rs

none_before_lem :
    (before : Before) (r : TaskRecord) (rs : List TaskRecord)
    → none_before before r rs ≡ true
    → (s : TaskRecord) → Mem s rs
    → before s r ≡ false
unfolding none_before
none_before_lem before r [] h s m = absurd (not-mem-nil m)
none_before_lem before r (x ∷ rs) h s m =
    Or.elim (Bool-set _ _) (mem-cons.0 m) (λ e. rw e (ground arith))
      (none_before_lem before r rs (ground arith) s)

is_ordered-IsOrdered :
    (before : Before) (rs : List TaskRecord) → is_ordered before rs ≡ true → IsOrdered before rs
unfolding is_ordered
is_ordered-IsOrdered before [] h = tt
is_ordered-IsOrdered before (r ∷ rs) h =
    (none_before_lem before r rs (ground arith), is_ordered-IsOrdered before rs (ground arith))

-- A statement that sorts fails when its order is none.
unfoldable pub select_sorted : Before → List TaskRecord → Option (List TaskRecord)
select_sorted before rs = let s = sort before rs in if is_ordered before s then some s else none

pub select_sorted_lem :
    (before : Before) (rs s : List TaskRecord)
    → select_sorted before rs ≡ some s
    → Perm s rs × IsOrdered before s
unfolding select_sorted
select_sorted_lem before rs s h = elim (Bool-cases (is_ordered before (sort before rs))) [
  | inl e ↦
      let same : sort before rs ≡ s = ground arith in
      subst (λ l. Perm l rs × IsOrdered before l) same
        (sort-perm before rs, is_ordered-IsOrdered before (sort before rs) e)
  | inr e ↦ absurd (ground arith)
]

unfoldable pub has_id : String → List TaskRecord → Bool
has_id id [] = false
has_id id (r ∷ rs) = str_eq r.id id || has_id id rs

has_id_lem :
    (id : String) (rs : List TaskRecord)
    → has_id id rs ≡ false
    → (s : TaskRecord) → Mem s rs
    → s.id ≢ id
unfolding has_id
has_id_lem id [] h s m e = absurd (not-mem-nil m)
has_id_lem id (r ∷ rs) h s m e =
    Or.elim ⊥_prop (mem-cons.0 m) (λ same. cc ((eq_iff r.id id).1 (ap (λ t. t.id) (sym same) ∙ e)))
      (λ rest. has_id_lem id rs (ground arith) s rest e)

-- The rows, and the notifications that were delivered.
pub record ListDb : Type 0 where
  pub rows : List TaskRecord
  pub sent : List (String × String)

unfoldable pub list_create : ListDb → TaskRecord → ListDb × Bool
list_create d r = if has_id r.id d.rows then (d, false) else (record d { rows = r ∷ d.rows }, true)

unfoldable pub list_select :
    ListDb → (TaskRecord → Bool) → Before → Option ℕ → ℕ → Option (List TaskRecord)
list_select d p before limit offset = elim (select_sorted before (where_rows p d.rows)) [
  | none ↦ none
  | some s ↦ some (limited limit (drop offset s))
]

pub list_create_fails :
    (d : ListDb) (r : TaskRecord) → (list_create d r).1 ≡ false → (list_create d r).0.rows ≡ d.rows
unfolding list_create
list_create_fails d r h = ground arith

pub list_create_adds :
    (d : ListDb) (r : TaskRecord)
    → (list_create d r).1 ≡ true
    → Perm (list_create d r).0.rows (r ∷ d.rows) × ((s : TaskRecord) → Mem s d.rows → s.id ≢ r.id)
unfolding list_create
list_create_adds d r h = elim (Bool-cases (has_id r.id d.rows)) [
  | inl e ↦ absurd (ground arith)
  | inr e ↦ (rw e (Perm.refl _), has_id_lem r.id d.rows e)
]

pub list_select_reads :
    (d : ListDb) (p : TaskRecord → Bool) (before : Before) (limit : Option ℕ) (offset : ℕ)
    (l : List TaskRecord)
    → list_select d p before limit offset ≡ some l
    → (s : List TaskRecord) × Perm s (where_rows p d.rows)
      × IsOrdered before s
      × (l ≡ limited limit (drop offset s))
unfolding list_select
list_select_reads d p before limit offset l h =
    elim (Option-cases (select_sorted before (where_rows p d.rows))) [
      | inl e ↦ absurd (ground (arith, e))
      | inr (s, e) ↦
          let (same, ordered) = select_sorted_lem before (where_rows p d.rows) s e in
          (s, same, ordered, some-injective _ _ (sym (rw (list_select, e) at h)))
    ]

abbrev pub list_table : Table
list_table = record {
  Db = ListDb;
  rows = λ d. d.rows;
  create = list_create;
  update = λ d p f. (record d { rows = updated p f d.rows }, some (length (where_rows p d.rows)));
  delete = λ d p. (record d { rows = deleted p d.rows }, some (length (where_rows p d.rows)));
  select = list_select;
  create_fails = list_create_fails;
  create_adds = list_create_adds;
  update_fails = λ d p f h. absurd (ground arith);
  update_sets = λ d p f n h. (refl, ground arith);
  delete_fails = λ d p h. absurd (ground arith);
  delete_drops = λ d p n h. (refl, ground arith);
  select_reads = list_select_reads;
}

abbrev pub english : List (String × String)
english = ("lang", "en") ∷ []

unfoldable pub marshal_one : List (String × String) → Option (List ℕ)
marshal_one ((k, v) ∷ []) = if str_eq k "lang" && str_eq v "en" then some (1 ∷ []) else none
marshal_one _ = none

pub marshal_one_lem :
    (md : List (String × String)) (b : List ℕ)
    → marshal_one md ≡ some b
    → (b ≢ []) × (◌≡◌ {A = Option (List (String × String))} (some english) (some md))
unfolding marshal_one
marshal_one_lem [] b h = absurd (ground arith)
marshal_one_lem (_ ∷ _ ∷ _) b h = absurd (ground arith)
marshal_one_lem ((k, v) ∷ []) b h =
    (λ e. ground arith, ground (arith, eq_iff k "lang", eq_iff v "en"))

abbrev pub one_map : Json
one_map = record {
  marshal = marshal_one;
  unmarshal = λ b. some english;
  round_trip = marshal_one_lem;
}
