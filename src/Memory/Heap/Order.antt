-- ===== src/Memory/Heap/Order.antt =====
-- The heap order over an abstract `Less`.
use workqueue_modules.Prelude.{
  Mem, [], ◌∷◌, length, ℕ, zero, suc, ◌<◌, ◌≡◌, Bool, true, false, List, arith,
}
use mathlib.Core.List.{mem-cons, not-mem-nil}
use mathlib.Core.Bool.{Bool-set}
use mathlib.Core.Logic.Or
use workqueue_modules.Memory.Slice.{entry}
use workqueue_modules.Memory.Heap.{parent}

-- What container/heap asks of `Less`.
pub record IsWeakOrder {A : Type 0} (less : A → A → Bool) : Type 0 where
  pub asym : (x y : A) → less x y ≡ true → less y x ≡ false
  pub trans : (x y z : A) → less y x ≡ false → less z y ≡ false → less z x ≡ false

module _ {A : Type 0} (d : A) (less : A → A → Bool) where
  -- Entry `i` may stand above entry `j`.
  abbrev pub InOrder : List A → ℕ → ℕ → Type 0
  InOrder a i j = less (entry d a j) (entry d a i) ≡ false

  -- The first `n` entries are a heap.
  abbrev pub IsHeap : ℕ → List A → Type 0
  IsHeap n a = (c : ℕ) → 0 < c → c < n → InOrder a (parent c) c

  module _ (order : IsWeakOrder less) where
    irrefl : (x : A) → less x x ≡ false
    irrefl x = ground (arith, order.asym x x)

    root_least_below : (k n : ℕ) (a : List A) (i : ℕ) → IsHeap n a → i < k → i < n → InOrder a 0 i
    root_least_below zero n a i h f p = absurd (omega arith)
    root_least_below (suc k) n a zero h f p = irrefl (entry d a 0)
    root_least_below (suc k) n a (suc i) h f p =
        order.trans _ _ _ (root_least_below k n a (parent (suc i)) h (omega arith) (omega arith))
          (h (suc i) (omega arith) p)

    -- No entry of a heap is less than its root.
    pub root_least : (n : ℕ) (a : List A) (i : ℕ) → IsHeap n a → i < n → InOrder a 0 i
    root_least n a i h p = root_least_below (suc i) n a i h (omega arith) p

    entry_mem :
        (b : List A) (x r : A)
        → ((i : ℕ) → i < length b → less (entry d b i) r ≡ false)
        → Mem x b
        → less x r ≡ false
    unfolding entry
    entry_mem [] x r h m = absurd (not-mem-nil m)
    entry_mem (y ∷ b) x r h m =
        Or.elim (Bool-set _ _) (mem-cons.0 m) (λ e. rw e (h 0 (omega arith)))
          (entry_mem b x r (λ i p. h (suc i) (omega arith)))

    -- No member of a heap is less than its root.
    pub root_least_mem :
        (a : List A) (x : A) → IsHeap (length a) a → Mem x a → less x (entry d a 0) ≡ false
    root_least_mem a x h m = entry_mem a x (entry d a 0) (λ i p. root_least (length a) a i h p) m
