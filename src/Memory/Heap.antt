-- ===== src/Memory/Heap.antt =====
-- Go's container/heap, which the backend's pending queue calls: Push and Pop with their sift loops,
-- over the `Less` of the caller. A loop's fuel is its largest number of rounds.
pub mod Order
pub mod Up
pub mod Down
use workqueue_modules.Prelude.{
  ℕ, zero, suc, ◌+◌, ◌-◌, ◌*◌, ◌/◌, Bool, not, ◌&&◌, ◌||◌, List, [], ◌∷◌, ◌++◌, ltb, leb, ◌==◌,
  if◌then◌else◌, length, take,
}
use workqueue_modules.Memory.Slice.{entry, swap}

abbrev pub parent : ℕ → ℕ
parent j = (j - 1) / 2

module _ {A : Type 0} (d : A) (less : A → A → Bool) where
  up_loop : ℕ → List A → ℕ → List A
  up_loop zero a j = a
  up_loop (suc k) a j =
      let rest = up_loop k (swap d a (parent j) j) (parent j) in
      if parent j == j || not (less (entry d a j) (entry d a (parent j))) then a else rest

  -- The smaller child of `i` among the first `n` entries; the left child is one of them.
  smaller_child : List A → ℕ → ℕ → ℕ
  smaller_child a i n =
      let left = 2 * i + 1 in
      let right = left + 1 in
      if ltb right n && less (entry d a right) (entry d a left) then right else left

  down_loop : ℕ → List A → ℕ → ℕ → List A
  down_loop zero a i n = a
  down_loop (suc k) a i n =
      let j = smaller_child a i n in
      let rest = down_loop k (swap d a i j) j n in
      if leb n (2 * i + 1) || not (less (entry d a j) (entry d a i)) then a else rest

  unfoldable pub push : List A → A → List A
  unfolding up_loop
  push a x = let h = a ++ x ∷ [] in up_loop (length h) h (length h - 1)

  -- The entries up to the last one, in heap order, and the one that was at the root.
  unfoldable pub pop : List A → List A × A
  unfolding down_loop smaller_child
  pop a =
      let n = length a - 1 in
      let h = down_loop (n + 1) (swap d a 0 n) 0 n in (take n h, entry d h n)
