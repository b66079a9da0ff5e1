-- ===== src/Memory/Slice.antt =====
-- A Go slice of which entries are read and exchanged. The callers stay inside the slice; out of
-- range a read gives the default `d`, and a write changes nothing.
use mathlib.Core.List.Perm
use workqueue_modules.Prelude.{
  ℕ, zero, suc, ◌<◌, ◌≡◌, refl, List, [], ◌∷◌, ◌++◌, Perm, arith, ◌==◌, if◌then◌else◌, length, take,
}

module _ {A : Type 0} where
  unfoldable pub put : List A → ℕ → A → List A
  put [] i v = []
  put (x ∷ a) zero v = v ∷ a
  put (x ∷ a) (suc i) v = x ∷ put a i v

  pub length-put : (a : List A) (i : ℕ) (v : A) → length (put a i v) ≡ length a
  unfolding put
  length-put [] i v = refl
  length-put (x ∷ a) zero v = refl
  length-put (x ∷ a) (suc i) v = omega (arith, length-put a i v)

module _ {A : Type 0} (d : A) where
  unfoldable pub entry : List A → ℕ → A
  entry [] i = d
  entry (x ∷ a) zero = x
  entry (x ∷ a) (suc i) = entry a i

  -- `h[i], h[j] = h[j], h[i]`
  unfoldable pub swap : List A → ℕ → ℕ → List A
  unfolding put entry
  swap a i j = put (put a i (entry a j)) j (entry a i)

module _ {A : Type 0} (d : A) where
  pub entry-put :
      (a : List A) (i j : ℕ) (v : A)
      → i < length a
      → entry d (put a i v) j ≡ (if i == j then v else entry d a j)
  unfolding entry put
  entry-put [] i j v h = absurd (omega arith)
  entry-put (x ∷ a) zero zero v h = refl
  entry-put (x ∷ a) zero (suc j) v h = ground arith
  entry-put (x ∷ a) (suc i) zero v h = ground arith
  entry-put (x ∷ a) (suc i) (suc j) v h = ground (arith, entry-put a i j v)

  pub entry-append : (a b : List A) (i : ℕ) → i < length a → entry d (a ++ b) i ≡ entry d a i
  unfolding entry
  entry-append [] b i h = absurd (omega arith)
  entry-append (x ∷ a) b zero h = refl
  entry-append (x ∷ a) b (suc i) h = entry-append a b i (omega arith)

  pub entry-take : (n : ℕ) (a : List A) (i : ℕ) → i < n → entry d (take n a) i ≡ entry d a i
  unfolding entry
  entry-take zero a i h = absurd (omega arith)
  entry-take (suc n) [] i h = refl
  entry-take (suc n) (x ∷ a) zero h = refl
  entry-take (suc n) (x ∷ a) (suc i) h = entry-take n a i (omega arith)

  -- Cutting off the last entry of a slice.
  pub take-entry-perm : (n : ℕ) (a : List A) → length a ≡ suc n → Perm (entry d a n ∷ take n a) a
  unfolding entry
  take-entry-perm zero [] h = absurd (omega arith)
  take-entry-perm zero (x ∷ []) h = Perm.refl _
  take-entry-perm zero (x ∷ y ∷ a) h = absurd (omega arith)
  take-entry-perm (suc n) [] h = absurd (omega arith)
  take-entry-perm (suc n) (x ∷ a) h =
      Perm.trans (Perm.swap x _ _) (Perm.cons x (take-entry-perm n a (omega arith)))

  -- A write exchanges the entry that was there for the new one.
  put-perm : (a : List A) (i : ℕ) (v : A) → i < length a → Perm (entry d a i ∷ put a i v) (v ∷ a)
  unfolding entry put
  put-perm [] i v h = absurd (omega arith)
  put-perm (x ∷ a) zero v h = Perm.swap v x a
  put-perm (x ∷ a) (suc i) v h =
      Perm.trans (Perm.swap x (entry d a i) _)
        (Perm.trans (Perm.cons x (put-perm a i v (omega arith))) (Perm.swap v x a))

  pub length-swap : (a : List A) (i j : ℕ) → length (swap d a i j) ≡ length a
  unfolding swap
  length-swap a i j = simp length-put

  module _ (a : List A) (i j : ℕ) (hi : i < length a) (hj : j < length a) where
    pub entry-swap :
        (c : ℕ)
        → entry d (swap d a i j) c
          ≡ (if j == c then entry d a i else if i == c then entry d a j else entry d a c)
    unfolding swap
    entry-swap c = ground (
      arith,
      length-put a i (entry d a j),
      entry-put (put a i (entry d a j)) j c (entry d a i),
      entry-put a i c (entry d a j),
    )

    same_entry : entry d (put a i (entry d a j)) j ≡ entry d a j
    same_entry = ground (arith, entry-put a i j (entry d a j))

    pub swap-perm : Perm (swap d a i j) a
    unfolding swap
    swap-perm =
        let written = put-perm (put a i (entry d a j)) j (entry d a i) (rw length-put hj) in
        Perm.cons_inv (Perm.trans (rw same_entry at written) (put-perm a i (entry d a j) hi))
