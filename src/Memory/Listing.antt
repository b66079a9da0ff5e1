-- ===== src/Memory/Listing.antt =====
-- The pages of ListDeadTasks.
use native.Mathlib.Decide.{dec_lt}
use workqueue_modules.Prelude.{
  sym, true, false, ◌||◌, ◌^◌, if_intro, ℕ, zero, suc, ◌+◌, ◌-◌, ◌≤◌, ◌<◌, ◌≡◌, ap, refl, ◌∙◌,
  String, none, some, List, [], ◌∷◌, map, arith, length, take, drop, length-drop,
}
use workqueue_modules.Prelude.Int.{
  ℤ, pos, pos_part, ◌+ℤ◌, negsuc, ◌≤ℤ◌, int64_end, slots_end, ◌-ℤ◌, wrap64_difference_fits, wrap64,
  wrap64_sum_fits, wrap64_sum_wraps, leb_ℤ, ltb_ℤ,
}
use workqueue_modules.Workqueue.{Task}
use workqueue_modules.Workqueue.Pages.{page_of, take_all, drop_all}
use workqueue_modules.Memory.Store.{MemoryWorkQueue, at}
use workqueue_modules.Memory.{clone_task, page, page_from, list_dead_tasks}

map-clone_task : (l : List Task) → map clone_task l ≡ l
unfolding clone_task
map-clone_task [] = refl
map-clone_task (t ∷ l) = ap (◌∷◌ t) (map-clone_task l)

take-nil : (n : ℕ) → take {A = Task} n [] ≡ []
take-nil zero = refl
take-nil (suc n) = refl

page_of-past : (limit : ℤ) (f : ℕ) (dead : List Task) → length dead ≤ f → page_of limit f dead ≡ []
page_of-past (pos zero) f dead h = drop_all f dead h
page_of-past (pos (suc n)) f dead h = rw (drop_all f dead h)
page_of-past (negsuc n) f dead h = drop_all f dead h

page_lem :
    (dead : List Task) (f e : ℕ)
    → f ≤ e
    → e < slots_end
    → page dead (pos f) (pos e) ≡ some (take (e - f) (drop f dead))
unfolding page
page_lem dead f e h small =
    let in_order : ltb_ℤ (pos e) (pos f) ≡ false = ground arith in
    let capacity : wrap64 (pos e -ℤ pos f) ≡ pos (e - f) =
      wrap64_difference_fits e f h (omega arith) in
    let made : (ltb_ℤ (pos (e - f)) (pos 0) || leb_ℤ (pos slots_end) (pos (e - f))) ≡ false =
      ground arith in
    rw (capacity, made, in_order) (ap some (map-clone_task _))

module _ (dead : List Task) (f : ℕ) (small : length dead < slots_end) where
  page_from_past : (limit : ℤ) → length dead ≤ f → page_from dead (pos f) limit ≡ some []
  unfolding page_from
  page_from_past limit h =
      let past : leb_ℤ (pos (length dead)) (pos f) ≡ true = ground arith in rw past

  page_from_rest :
      (limit : ℤ)
      → f < length dead
      → limit ≤ℤ pos 0
      → page_from dead (pos f) limit ≡ some (drop f dead)
  unfolding page_from
  page_from_rest limit h k =
      let inside : leb_ℤ (pos (length dead)) (pos f) ≡ false = ground arith in
      let none_asked : ltb_ℤ (pos 0) limit ≡ false = ground arith in
      rw (inside, none_asked)
        (page_lem dead f (length dead) (omega arith) small
          ∙ ap some (take_all _ (drop f dead) (omega (arith, length-drop f dead))))

  page_from_limited :
      (n : ℕ)
      → f < length dead
      → f + suc n < int64_end
      → page_from dead (pos f) (pos (suc n)) ≡ some (take (suc n) (drop f dead))
  unfolding page_from
  page_from_limited n h k =
      let inside : leb_ℤ (pos (length dead)) (pos f) ≡ false = ground arith in
      let exact : wrap64 (pos f +ℤ pos (suc n)) ≡ pos (f + suc n) = wrap64_sum_fits f (suc n) k in
      let asked : ltb_ℤ (pos 0) (pos (suc n)) ≡ true = ground arith in
      rw (inside, exact, asked)
        (elim (dec_lt (f + suc n) (length dead)) [
          | yes short ↦
              let count : f + suc n - f ≡ suc n = omega arith in
              let cut : ltb_ℤ (pos (f + suc n)) (pos (length dead)) ≡ true = ground arith in
              rw cut (
                page_lem dead f (f + suc n) (omega arith) (omega arith)
                ∙ ap (λ c. some (take c (drop f dead))) count)
          | no long ↦
              let cut : ltb_ℤ (pos (f + suc n)) (pos (length dead)) ≡ false = ground arith in
              let size = length-drop f dead in
              rw cut (
                page_lem dead f (length dead) (omega arith) small
                ∙ ap some (
                    take_all _ (drop f dead) (omega (arith, size))
                    ∙ sym (take_all (suc n) (drop f dead) (omega (arith, size)))))
        ])

page_from_lem :
    (dead : List Task) (f : ℕ) (limit : ℤ)
    → length dead < slots_end
    → f + pos_part limit < int64_end
    → page_from dead (pos f) limit ≡ some (page_of limit f dead)
page_from_lem dead f limit small h = elim (dec_lt f (length dead)) [
  | no past ↦
      page_from_past dead f small limit (omega arith)
      ∙ ap some (sym (page_of-past limit f dead (omega arith)))
  | yes inside ↦ inside_lem dead f limit small inside h
]
  where
    inside_lem :
        (dead : List Task) (f : ℕ) (limit : ℤ)
        → length dead < slots_end
        → f < length dead
        → f + pos_part limit < int64_end
        → page_from dead (pos f) limit ≡ some (page_of limit f dead)
    inside_lem dead f (pos zero) small i h = page_from_rest dead f small (pos 0) i (omega arith)
    inside_lem dead f (pos (suc n)) small i h = page_from_limited dead f small n i h
    inside_lem dead f (negsuc n) small i h = page_from_rest dead f small (negsuc n) i (omega arith)

-- ListDeadTasks skips `offset` dead letters, none if the offset is negative, and returns the next
-- `limit` in order, all of them if the limit is not positive, whenever the sum of the two fits 64
-- bits and there are fewer than 2^60 dead letters.
pub list_dead_tasks_page :
    (m : MemoryWorkQueue) (name : String) (limit offset : ℤ)
    → length (at m name).dead < slots_end
    → pos_part offset + pos_part limit < int64_end
    → (list_dead_tasks m name limit offset).1
      ≡ some (page_of limit (pos_part offset) (at m name).dead)
unfolding list_dead_tasks
list_dead_tasks_page m name limit (pos f) small h =
    let skips : ltb_ℤ (pos f) (pos 0) ≡ false = ground arith in
    rw skips (page_from_lem (at m name).dead f limit small h)
list_dead_tasks_page m name limit (negsuc k) small h =
    let starts : ltb_ℤ (negsuc k) (pos 0) ≡ true = ground arith in
    rw starts (page_from_lem (at m name).dead 0 limit small (omega arith))

page_panics : (dead : List Task) (from end : ℤ) → ltb_ℤ end from ≡ true → page dead from end ≡ none
unfolding page
page_panics dead from end h =
    let capacity = wrap64 (end -ℤ from) in
    if_intro (λ o. o ≡ none) (ltb_ℤ capacity (pos 0) || leb_ℤ (pos slots_end) capacity) (λ e. refl)
      (λ e. rw h refl)

page_from_panics :
    (dead : List Task) (f n : ℕ)
    → f < length dead
    → n < int64_end
    → length dead < int64_end
    → int64_end ≤ f + n
    → page_from dead (pos f) (pos n) ≡ none
unfolding page_from
page_from_panics dead f n h k size over =
    let inside : leb_ℤ (pos (length dead)) (pos f) ≡ false = ground arith in
    let asked : ltb_ℤ (pos 0) (pos n) ≡ true = ground arith in
    let wrapped = wrap64_sum_wraps f n (omega arith) k over in
    let end = negsuc (2 ^ 64 - 1 - (f + n)) in
    let cut : ltb_ℤ end (pos (length dead)) ≡ true = ground arith in
    rw (inside, asked, wrapped, cut) (page_panics dead (pos f) end (ground arith))

-- With an offset inside the dead letters and a positive limit, an `offset+limit` that does not fit 64
-- bits makes the call panic instead of returning the rest of the dead letters.
pub list_dead_tasks_panics :
    (m : MemoryWorkQueue) (name : String) (offset limit : ℕ)
    → offset < length (at m name).dead
    → limit < int64_end
    → length (at m name).dead < int64_end
    → int64_end ≤ offset + limit
    → (list_dead_tasks m name (pos limit) (pos offset)).1 ≡ none
unfolding list_dead_tasks
list_dead_tasks_panics m name offset limit h k size over =
    let skips : ltb_ℤ (pos offset) (pos 0) ≡ false = ground arith in
    rw skips (page_from_panics (at m name).dead offset limit h k size over)
