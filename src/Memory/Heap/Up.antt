-- ===== src/Memory/Heap/Up.antt =====
-- The loop of Push.
use mathlib.Core.List.Perm
use workqueue_modules.Prelude.{
  ℕ, zero, suc, ◌-◌, ◌<◌, ◌≡◌, ◌≢◌, Bool, true, List, [], ◌∷◌, ◌++◌, Perm, arith, ◌==◌, not, ◌||◌,
  length, length-append, length-perm, if_intro,
}
use workqueue_modules.Memory.Slice.{entry, swap, entry-append, entry-swap, length-swap, swap-perm}
use workqueue_modules.Memory.Heap.{parent, up_loop, push}
use workqueue_modules.Memory.Heap.Order.{IsWeakOrder, InOrder, IsHeap}

module _ {A : Type 0} (d : A) (less : A → A → Bool) where
  -- Only the edge above `j` may be out of order.
  pub record UpInv (a : List A) (j : ℕ) : Type 0 where
    pub inside : j < length a
    pub edges : (c : ℕ) → 0 < c → c < length a → c ≢ j → InOrder d less a (parent c) c
    pub bridged :
        (c : ℕ) → 0 < c → c < length a → parent c ≡ j → 0 < j → InOrder d less a (parent j) c

module _ {A : Type 0} (d : A) (less : A → A → Bool) (order : IsWeakOrder less) where
  swap-UpInv :
      (a : List A) (j : ℕ)
      → UpInv d less a j
      → 0 < j
      → less (entry d a j) (entry d a (parent j)) ≡ true
      → UpInv d less (swap d a (parent j) j) (parent j)
  swap-UpInv a j v pos below =
      let size = length-swap d a (parent j) j in
      let at = entry-swap d a (parent j) j (omega (arith, v.inside)) v.inside in
      record {
        inside = omega (arith, size, v.inside);
        edges = λ c p q r. ground (
          arith,
          size,
          at c,
          at (parent c),
          v.edges c,
          v.bridged c,
          order.asym (entry d a j) (entry d a (parent j)),
          order.trans (entry d a j) (entry d a (parent j)) (entry d a c),
        );
        bridged = λ c p q r s. ground (
          arith,
          size,
          at c,
          at (parent (parent j)),
          v.edges c,
          v.edges (parent j),
          order.trans (entry d a (parent (parent j))) (entry d a (parent j)) (entry d a c),
        );
      }

  -- A heap of the entries of `a`.
  abbrev Restores : List A → List A → Type 0
  Restores a b = IsHeap d less (length a) b × Perm b a

  up_loop-Restores :
      (k : ℕ) (a : List A) (j : ℕ) → j < k → UpInv d less a j → Restores a (up_loop d less k a j)
  unfolding up_loop
  up_loop-Restores zero a j f v = absurd (omega arith)
  up_loop-Restores (suc k) a j f v =
      if_intro (Restores a) (parent j == j || not (less (entry d a j) (entry d a (parent j))))
        (λ settled. (λ c p q. ground (arith, v.edges c), Perm.refl a))
        λ rises.
          let below : less (entry d a j) (entry d a (parent j)) ≡ true = ground arith in
          let pos : 0 < j = ground arith in
          let (heap, perm) =
            up_loop-Restores k (swap d a (parent j) j) (parent j) (omega arith)
              (swap-UpInv a j v pos below) in
          (
            λ c p q. heap c p (omega (arith, length-swap d a (parent j) j)),
            Perm.trans perm (swap-perm d a (parent j) j (omega (arith, v.inside)) v.inside),
          )

  appended-perm : (last : A) (heap : List A) → Perm (heap ++ last ∷ []) (last ∷ heap)
  appended-perm last [] = Perm.refl _
  appended-perm last (first ∷ heap) =
      Perm.trans (Perm.cons first (appended-perm last heap)) (Perm.swap last first heap)

  concat-UpInv :
      (a : List A) (x : A) → IsHeap d less (length a) a → UpInv d less (a ++ x ∷ []) (length a)
  concat-UpInv a x h = record {
    inside = omega (arith, length-append a (x ∷ []));
    edges = λ c p q r. ground (
      arith,
      length-append a (x ∷ []),
      h c,
      entry-append d a (x ∷ []) c,
      entry-append d a (x ∷ []) (parent c),
    );
    bridged = λ c p q r s. absurd (omega (arith, length-append a (x ∷ [])));
  }

  -- Push makes a heap of the entries and the new one.
  pub push_restores :
      (a : List A) (x : A)
      → IsHeap d less (length a) a
      → IsHeap d less (length (push d less a x)) (push d less a x) × Perm (push d less a x) (x ∷ a)
  unfolding push
  push_restores a x h =
      let size = length-append a (x ∷ []) in
      let last : length (a ++ x ∷ []) - 1 ≡ length a = omega (arith, size) in
      let (heap, perm) =
        up_loop-Restores (length (a ++ x ∷ [])) (a ++ x ∷ []) (length (a ++ x ∷ []) - 1)
          (omega (arith, size)) (rw last (concat-UpInv a x h)) in
      (λ c p q. heap c p (omega (arith, length-perm perm)), Perm.trans perm (appended-perm x a))
