-- ===== src/Memory/Heap/Down.antt =====
-- The loop of Pop.
use mathlib.Core.List.Perm
use native.Mathlib.Decide.{ℕ_discrete}
use workqueue_modules.Prelude.{
  ℕ, zero, suc, ◌+◌, ◌-◌, ◌*◌, ◌≤◌, ◌<◌, ◌≡◌, ◌≢◌, ◌⊎◌, inl, inr, refl, Bool, true, false, List,
  ◌∷◌, Perm, arith, ltb, leb, not, ◌||◌, ◌&&◌, length, length-take, length-perm, if_intro,
}
use workqueue_modules.Memory.Slice.{
  entry, swap, entry-swap, entry-take, take-entry-perm, length-swap, swap-perm,
}
use workqueue_modules.Memory.Heap.{parent, smaller_child, down_loop, pop}
use workqueue_modules.Memory.Heap.Order.{IsWeakOrder, InOrder, IsHeap}

module _ {A : Type 0} (d : A) (less : A → A → Bool) where
  -- Of the first `n` entries, only the edges below `i` may be out of order.
  record DownInv (n : ℕ) (a : List A) (i : ℕ) : Type 0 where
    inside : n ≤ length a
    edges : (c : ℕ) → 0 < c → c < n → parent c ≢ i → InOrder d less a (parent c) c
    bridged : (c : ℕ) → 0 < c → c < n → parent c ≡ i → 0 < i → InOrder d less a (parent i) c

  -- Entry `m` is a child of `i`, and no child of `i` is less.
  record IsSmallerChild (n : ℕ) (a : List A) (i m : ℕ) : Type 0 where
    inside : m < n
    child : (m ≡ 2 * i + 1) ⊎ (m ≡ 2 * i + 2)
    least : (c : ℕ) → 0 < c → c < n → parent c ≡ i → InOrder d less a m c

  -- A heap of the first `n` entries of `a`, with the others where they were.
  record Sifts (n : ℕ) (a b : List A) : Type 0 where
    heap : IsHeap d less n b
    same : Perm b a
    kept : (c : ℕ) → n ≤ c → entry d b c ≡ entry d a c

  -- What Pop gives: the entry that was at the root, and a heap of the others.
  pub record Pops (a : List A) (r : List A × A) : Type 0 where
    pub heap : IsHeap d less (length r.0) r.0
    pub same : Perm (r.1 ∷ r.0) a
    pub root : r.1 ≡ entry d a 0

module _ {A : Type 0} (d : A) (less : A → A → Bool) (order : IsWeakOrder less) where
  irrefl : (x : A) → less x x ≡ false
  irrefl x = ground (arith, order.asym x x)

  smaller_child-IsSmallerChild :
      (n : ℕ) (a : List A) (i : ℕ)
      → 2 * i + 1 < n
      → IsSmallerChild d less n a i (smaller_child d less a i n)
  unfolding smaller_child
  smaller_child-IsSmallerChild n a i h =
      let left = 2 * i + 1 in
      let right = left + 1 in
      if_intro (IsSmallerChild d less n a i)
        (ltb right n && less (entry d a right) (entry d a left))
        (λ e. record {
          inside = ground arith;
          child = inr (omega arith);
          least = λ c p q r. elim (child_cases c i p r) [
            | inl l ↦ rw l (order.asym _ _ (ground arith))
            | inr l ↦ rw l (irrefl _)
          ];
        })
        (λ e. record {
          inside = h;
          child = inl refl;
          least = λ c p q r. elim (child_cases c i p r) [
            | inl l ↦ rw l (irrefl _)
            | inr l ↦ rw l (ground arith)
          ];
        })
    where
      child_cases : (c i : ℕ) → 0 < c → parent c ≡ i → (c ≡ 2 * i + 1) ⊎ (c ≡ 2 * i + 1 + 1)
      child_cases c i p r = ground arith

  swap-DownInv :
      (n : ℕ) (a : List A) (i m : ℕ)
      → DownInv d less n a i
      → IsSmallerChild d less n a i m
      → less (entry d a m) (entry d a i) ≡ true
      → DownInv d less n (swap d a i m) m
  swap-DownInv n a i m v s below =
      let size = length-swap d a i m in
      let at =
        entry-swap d a i m (omega (arith, v.inside, s.inside, s.child))
          (omega (arith, v.inside, s.inside)) in
      record {
        inside = omega (arith, size, v.inside);
        edges = λ c p q r. ground (
          arith,
          s.child,
          at c,
          at (parent c),
          v.edges c,
          v.bridged m,
          s.least c,
          order.asym (entry d a m) (entry d a i),
        );
        bridged = λ c p q r t. ground (arith, s.child, at c, at (parent m), v.edges c);
      }

  down_loop-Sifts :
      (k n : ℕ) (a : List A) (i : ℕ)
      → n < k + i
      → DownInv d less n a i
      → Sifts d less n a (down_loop d less k a i n)
  unfolding down_loop
  down_loop-Sifts zero n a i f v = record {
    heap = λ c p q. v.edges c p q (omega arith);
    same = Perm.refl a;
    kept = λ c p. refl;
  }
  down_loop-Sifts (suc k) n a i f v =
      let m = smaller_child d less a i n in
      if_intro (Sifts d less n a) (leb n (2 * i + 1) || not (less (entry d a m) (entry d a i)))
        (λ settled. record {
          heap = λ c p q. elim (ℕ_discrete (parent c) i) [
            | yes e ↦
                let s = smaller_child-IsSmallerChild n a i (omega (arith, e)) in
                rw e (order.trans _ _ _ (ground arith) (s.least c p q e))
            | no e ↦ v.edges c p q e
          ];
          same = Perm.refl a;
          kept = λ c p. refl;
        })
        λ sinks.
          let s = smaller_child-IsSmallerChild n a i (ground arith) in
          let below : less (entry d a m) (entry d a i) ≡ true = ground arith in
          let hi : i < length a = omega (arith, v.inside, s.inside, s.child) in
          let hm : m < length a = omega (arith, v.inside, s.inside) in
          let rest =
            down_loop-Sifts k n (swap d a i m) m (omega (arith, s.child))
              (swap-DownInv n a i m v s below) in
          record {
            heap = rest.heap;
            same = Perm.trans rest.same (swap-perm d a i m hi hm);
            kept =
                λ c p. ground (arith, rest.kept c, entry-swap d a i m hi hm c, s.child, s.inside);
          }

  pub pop-Pops :
      (a : List A) → 0 < length a → IsHeap d less (length a) a → Pops d less a (pop d less a)
  unfolding pop
  pop-Pops a h v =
      let n = length a - 1 in
      let last : length a ≡ suc n = omega arith in
      let swapped = swap d a 0 n in
      let at = entry-swap d a 0 n h (omega arith) in
      let start : DownInv d less n swapped 0 = record {
        inside = omega (arith, length-swap d a 0 n);
        edges = λ c p q r. ground (arith, at c, at (parent c), v c);
        bridged = λ c p q r s. absurd (omega arith);
      } in
      let down = down_loop-Sifts (n + 1) n swapped 0 (omega arith) start in
      let b = down_loop d less (n + 1) swapped 0 n in
      let size : length b ≡ suc n = omega (arith, length-perm down.same, length-swap d a 0 n) in
      record {
        heap = λ c p q.
            let c-lt-n : c < n = omega (arith, length-take n b) in
            ground (arith, entry-take d n b c, entry-take d n b (parent c), down.heap c);
        same =
            Perm.trans (take-entry-perm d n b size)
              (Perm.trans down.same (swap-perm d a 0 n h (omega arith)));
        root = ground (arith, down.kept n, at n);
      }
