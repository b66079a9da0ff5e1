-- ===== src/Nats/Log.antt =====
-- A stream in memory: message bodies in the order of their sequence numbers, from 1 on, with `none`
-- where a message was taken out.
use mathlib.Core.List.{mem-cons, not-mem-nil, mem-cons_self, mem-cons_of_mem}
use mathlib.Core.Logic.Or
use native.Mathlib.Bridge.{le_prop}
use workqueue_modules.Prelude.{
  ℕ, suc, ◌+◌, ◌≤◌, ◌<◌, ◌≡◌, ◌≢◌, refl, ap, subst, ◌∙◌, inl, inr, Bool-cases, Option, some, none,
  List, [], ◌∷◌, ◌++◌, Mem, arith, length, ◌==◌, if◌then◌else◌,
}
use workqueue_modules.Nats.Broker.{
  Entry, Fetched, found, not_found, fetch_failed, without_seq, IsAscending,
}

abbrev pub Log : Type 0
Log = List (Option (List ℕ))

unfoldable pub number : ℕ → Log → List Entry
number k [] = []
number k (none ∷ l) = number (suc k) l
number k (some b ∷ l) = record { seq = k; body = b } ∷ number (suc k) l

unfoldable pub erase : ℕ → ℕ → Log → Log
erase n k [] = []
erase n k (x ∷ l) = (if k == n then none else x) ∷ erase n (suc k) l

unfoldable pub read : ℕ → List Entry → Fetched
read n [] = not_found
read n (e ∷ es) = if e.seq == n then found e.body else read n es

pub number-append :
    (k : ℕ) (l : Log) (b : List ℕ)
    → number k (l ++ some b ∷ []) ≡ number k l ++ record { seq = k + length l; body = b } ∷ []
unfolding number
number-append k [] b = ap (λ n. record { seq = n; body = b } ∷ []) (omega arith)
number-append k (none ∷ l) b =
    number-append (suc k) l b
    ∙ ap (λ n. number (suc k) l ++ record { seq = n; body = b } ∷ []) (omega arith)
number-append k (some x ∷ l) b =
    ap (λ es. record { seq = k; body = x } ∷ es)
      (number-append (suc k) l b
        ∙ ap (λ n. number (suc k) l ++ record { seq = n; body = b } ∷ []) (omega arith))

pub number-low : (k : ℕ) (l : Log) (e : Entry) → Mem e (number k l) → k ≤ e.seq
unfolding number
number-low k [] e m = absurd (not-mem-nil m)
number-low k (none ∷ l) e m = omega (arith, number-low (suc k) l e m)
number-low k (some b ∷ l) e m =
    Or.elim le_prop (mem-cons.0 m) (λ same. omega (arith, ap (λ x. x.seq) same))
      (λ below. omega (arith, number-low (suc k) l e below))

pub number-high : (k : ℕ) (l : Log) (e : Entry) → Mem e (number k l) → e.seq < k + length l
unfolding number
number-high k [] e m = absurd (not-mem-nil m)
number-high k (none ∷ l) e m = omega (arith, number-high (suc k) l e m)
number-high k (some b ∷ l) e m =
    Or.elim le_prop (mem-cons.0 m) (λ same. omega (arith, ap (λ x. x.seq) same))
      (λ below. omega (arith, number-high (suc k) l e below))

pub number-IsAscending : (k : ℕ) (l : Log) → IsAscending (number k l)
unfolding number
number-IsAscending k [] = tt
number-IsAscending k (none ∷ l) = number-IsAscending (suc k) l
number-IsAscending k (some b ∷ l) =
    (λ f m. omega (arith, number-low (suc k) l f m), number-IsAscending (suc k) l)

pub number-erase : (n k : ℕ) (l : Log) → number k (erase n k l) ≡ without_seq n (number k l)
unfolding number erase without_seq
number-erase n k [] = refl
number-erase n k (none ∷ l) = elim (Bool-cases (k == n)) [
  | inl t ↦ rw t (number-erase n (suc k) l)
  | inr f ↦ rw f (number-erase n (suc k) l)
]
number-erase n k (some b ∷ l) = elim (Bool-cases (k == n)) [
  | inl t ↦ rw t (number-erase n (suc k) l)
  | inr f ↦ rw f (ap (λ es. record { seq = k; body = b } ∷ es) (number-erase n (suc k) l))
]

pub read-found :
    (n : ℕ) (es : List Entry) (b : List ℕ)
    → read n es ≡ found b
    → Mem (record { seq = n; body = b }) es
unfolding read
read-found n [] b h = absurd (ground (arith, h))
read-found n (e ∷ es) b h = elim (Bool-cases (e.seq == n)) [
  | inl t ↦
      let body : found e.body ≡ found b = rw t at h in
      let at_n : e.seq ≡ n = ground arith in
      let same : e.body ≡ b = ground (arith, body) in
      subst (λ y. Mem y (e ∷ es)) (λ i. record { seq = at_n i; body = same i }) mem-cons_self
  | inr f ↦ let h' : read n es ≡ found b = rw f at h in mem-cons_of_mem e (read-found n es b h')
]

pub read-missing :
    (n : ℕ) (es : List Entry) (e : Entry) → read n es ≡ not_found → Mem e es → e.seq ≢ n
unfolding read
read-missing n [] e h m = absurd (not-mem-nil m)
read-missing n (x ∷ es) e h m = elim (Bool-cases (x.seq == n)) [
  | inl t ↦ absurd (let h' : found x.body ≡ not_found = rw t at h in ground (arith, h'))
  | inr f ↦ λ same.
      let h' : read n es ≡ not_found = rw f at h in
      let bad : 1 ≤ 0 =
        Or.elim le_prop (mem-cons.0 m) (λ p. absurd (ground (arith, ap (λ y. y.seq) p, same, f)))
          (λ below. absurd (read-missing n es e h' below same)) in
      omega (arith, bad)
]

pub read-answers : (n : ℕ) (es : List Entry) → read n es ≢ fetch_failed
unfolding read
read-answers n [] h = absurd (ground (arith, h))
read-answers n (e ∷ es) h = elim (Bool-cases (e.seq == n)) [
  | inl t ↦ absurd (let h' : found e.body ≡ fetch_failed = rw t at h in ground (arith, h'))
  | inr f ↦ absurd (read-answers n es (rw f at h))
]
