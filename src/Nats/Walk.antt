-- ===== src/Nats/Walk.antt =====
-- nats_workqueue/workqueue.go: the loop of scanDeadTasks, against a walk over the messages of the
-- stream as a list.
use mathlib.Core.List.{mem-cons, not-mem-nil, mem-cons_self, mem-cons_of_mem, Mem-prop}
use mathlib.Core.Logic.Or
use native.Mathlib.Decide.{dec_lt}
use workqueue_modules.Prelude.{
  ℕ, zero, suc, ◌+◌, ◌^◌, ◌≤◌, ◌<◌, ◌≡◌, ◌≢◌, refl, sym, ap, ◌∙◌, inl, inr, String, Bool, true,
  false, none, some, List, [], ◌∷◌, Mem, arith, if◌then◌else◌, Option-cases, Bool-cases, ◌⊎◌,
}
use workqueue_modules.Workqueue.{Task}
use workqueue_modules.Nats.Broker.{
  Entry, Fetched, found, not_found, fetch_failed, JetStream, TaskCodec, IsAscending,
}
use workqueue_modules.Nats.Scan.{DeadEntry, scan_goes_on, scan_round, next_seq, scan_loop}

-- A visitor over a list, until it says no.
unfoldable pub visit_all : {A : Type 0} → (A → DeadEntry → A × Bool) → A → List DeadEntry → A
visit_all visit a [] = a
visit_all visit a (e ∷ es) =
    let (a', goes_on) = visit a e in
    let rest = visit_all visit a' es in if goes_on then rest else a'

-- The messages that decode.
unfoldable pub decoded : TaskCodec → List Entry → List DeadEntry
decoded j [] = []
decoded j (e ∷ es) = elim (j.unmarshal e.body) [
  | none ↦ decoded j es
  | some task ↦ record { task = task; seq = e.seq } ∷ decoded j es
]

decoded-none :
    (j : TaskCodec) (e : Entry) (es : List Entry)
    → j.unmarshal e.body ≡ none
    → decoded j (e ∷ es) ≡ decoded j es
unfolding decoded
decoded-none j e es u = rw (decoded, u) refl

decoded-some :
    (j : TaskCodec) (e : Entry) (es : List Entry) (task : Task)
    → j.unmarshal e.body ≡ some task
    → decoded j (e ∷ es) ≡ record { task = task; seq = e.seq } ∷ decoded j es
unfolding decoded
decoded-some j e es task u = rw (decoded, u) refl

Entry-set : IsSet Entry
Entry-set = hlevel

-- How a read of one number ends.
Fetched-cases :
    (f : Fetched) → ((b : List ℕ) × (f ≡ found b)) ⊎ ((f ≡ not_found) ⊎ (f ≡ fetch_failed))
Fetched-cases (found b) = inl (b, refl)
Fetched-cases not_found = inr (inl refl)
Fetched-cases fetch_failed = inr (inr refl)

module _ (J : JetStream) (j : TaskCodec) (s : J.Server) (stream : String) where
  open J use {Server, get_msg, stored}

  -- The list has exactly the messages from `seq` to `last`.
  pub record Covers (seq last : ℕ) (es : List Entry) : Type 0 where
    pub up : IsAscending es
    pub inside : (e : Entry) → Mem e es → (seq ≤ e.seq) × (e.seq ≤ last)
    pub finds :
        (k : ℕ) (b : List ℕ)
        → seq ≤ k
        → get_msg s stream k ≡ found b
        → Mem (record { seq = k; body = b }) es
    pub misses : (k : ℕ) (e : Entry) → get_msg s stream k ≡ not_found → Mem e es → e.seq ≢ k

  -- The message that is found at the first number stands first.
  Covers-found :
      (seq last : ℕ) (b : List ℕ) (es : List Entry)
      → Covers seq last es
      → get_msg s stream seq ≡ found b
      → (rest : List Entry) × (es ≡ record { seq = seq; body = b } ∷ rest)
        × Covers (suc seq) last rest
  Covers-found seq last b [] v e = absurd (not-mem-nil (v.finds seq b (omega arith) e))
  Covers-found seq last b (x ∷ rest) v e =
      let (above, up) = v.up in
      let first : x ≡ record { seq = seq; body = b } =
        Or.elim (Entry-set _ _) (mem-cons.0 (v.finds seq b (omega arith) e)) (λ same. sym same)
          (λ below. absurd (omega (arith, above _ below, v.inside x mem-cons_self))) in
      (
        rest,
        ap (λ y. y ∷ rest) first,
        record {
          up = up;
          inside = λ y m. (
            omega (arith, above y m, v.inside x mem-cons_self),
            (v.inside y (mem-cons_of_mem x m)).1,
          );
          finds = λ k b' h f.
              Or.elim Mem-prop (mem-cons.0 (v.finds k b' (omega arith) f))
                (λ same. absurd (omega (arith, ap (λ y. y.seq) (same ∙ first)))) (λ below. below);
          misses = λ k y f m. v.misses k y f (mem-cons_of_mem x m);
        },
      )

  Covers-missing :
      (seq last : ℕ) (es : List Entry)
      → Covers seq last es
      → get_msg s stream seq ≡ not_found
      → Covers (suc seq) last es
  Covers-missing seq last es v e = record {
    up = v.up;
    inside = λ x m. (omega (arith, v.inside x m, v.misses seq x e m), (v.inside x m).1);
    finds = λ k b h. v.finds k b (omega arith);
    misses = v.misses;
  }

  Covers-empty : (seq last : ℕ) (es : List Entry) → Covers seq last es → last < seq → es ≡ []
  Covers-empty seq last [] v h = refl
  Covers-empty seq last (x ∷ es) v h = absurd (omega (arith, v.inside x mem-cons_self))

  module _ {A : Type 0} (visit : A → DeadEntry → A × Bool) where
    pub scan_stops :
        (rounds seq last : ℕ) (a : A)
        → scan_goes_on seq last ≡ false
        → scan_loop J j s stream visit rounds seq last a ≡ some a
    unfolding scan_loop scan_round
    scan_stops zero seq last a h = refl
    scan_stops (suc rounds) seq last a h = rw h refl

    -- A round of the loop, by what stands at `seq`.
    round_missing :
        (rounds seq last : ℕ) (a : A)
        → scan_goes_on seq last ≡ true
        → get_msg s stream seq ≡ not_found
        → scan_loop J j s stream visit (suc rounds) seq last a
          ≡ scan_loop J j s stream visit rounds (next_seq seq) last a
    unfolding scan_loop scan_round
    round_missing rounds seq last a g e = rw (g, e) refl

    round_garbled :
        (rounds seq last : ℕ) (a : A) (b : List ℕ)
        → scan_goes_on seq last ≡ true
        → get_msg s stream seq ≡ found b
        → j.unmarshal b ≡ none
        → scan_loop J j s stream visit (suc rounds) seq last a
          ≡ scan_loop J j s stream visit rounds (next_seq seq) last a
    unfolding scan_loop scan_round
    round_garbled rounds seq last a b g e u = rw (g, e, u) refl

    round_visits :
        (rounds seq last : ℕ) (a : A) (b : List ℕ) (task : Task)
        → scan_goes_on seq last ≡ true
        → get_msg s stream seq ≡ found b
        → j.unmarshal b ≡ some task
        → scan_loop J j s stream visit (suc rounds) seq last a ≡ (
            let (a', goes_on) = visit a (record { task = task; seq = seq }) in
            let rest = scan_loop J j s stream visit rounds (next_seq seq) last a' in
            if goes_on then rest else some a')
    unfolding scan_loop scan_round
    round_visits rounds seq last a b task g e u = rw (g, e, u) refl

    -- What the loop is to return from `seq` on.
    abbrev pub Walks : ℕ → ℕ → Type 0
    Walks rounds last =
        (seq : ℕ) (a : A) (es : List Entry)
        → 0 < seq
        → last < seq + rounds
        → Covers seq last es
        → scan_loop J j s stream visit rounds seq last a ≡ some (visit_all visit a (decoded j es))

    -- The rounds after the number `seq`, whose successor may wrap around.
    next_rounds :
        (rounds seq last : ℕ) (a : A) (es : List Entry)
        → last < 2 ^ 64
        → seq ≤ last
        → last < suc seq + rounds
        → Walks rounds last
        → Covers (suc seq) last es
        → scan_loop J j s stream visit rounds (next_seq seq) last a
          ≡ some (visit_all visit a (decoded j es))
    unfolding visit_all decoded
    next_rounds rounds seq last a es small low enough walks v = elim (dec_lt seq last) [
      | yes below ↦
          let next : next_seq seq ≡ suc seq = omega arith in
          rw next (walks (suc seq) a es (omega arith) enough v)
      | no stops ↦
          let ends : scan_goes_on (next_seq seq) last ≡ false = ground arith in
          rw (Covers-empty (suc seq) last es v (omega arith))
            (scan_stops rounds (next_seq seq) last a ends)
    ]

    -- A round that finds the first message of the list.
    found_round :
        (rounds seq last : ℕ) (a : A) (b : List ℕ) (es : List Entry)
        → scan_goes_on seq last ≡ true
        → get_msg s stream seq ≡ found b
        → ((a' : A)
            → scan_loop J j s stream visit rounds (next_seq seq) last a'
              ≡ some (visit_all visit a' (decoded j es)))
        → scan_loop J j s stream visit (suc rounds) seq last a
          ≡ some (visit_all visit a (decoded j (record { seq = seq; body = b } ∷ es)))
    unfolding visit_all
    found_round rounds seq last a b es g e later =
        let here : Entry = record { seq = seq; body = b } in
        elim (Option-cases (j.unmarshal b)) [
          | inl u ↦
              rw (decoded-none j here es u) (round_garbled rounds seq last a b g e u ∙ later a)
          | inr (task, u) ↦
              let (a', goes_on) = visit a (record { task = task; seq = seq }) in
              rw (decoded-some j here es task u) (
                round_visits rounds seq last a b task g e u
                ∙ elim (Bool-cases goes_on) [ inl t ↦ rw t (later a') | inr f ↦ rw f refl ])
        ]

    pub scan-visit_all :
        (rounds last : ℕ)
        → last < 2 ^ 64
        → ((k : ℕ) → get_msg s stream k ≢ fetch_failed)
        → Walks rounds last
    unfolding visit_all decoded
    scan-visit_all zero last small reads seq a es positive enough v =
        let ends : scan_goes_on seq last ≡ false = ground arith in
        rw (Covers-empty seq last es v (omega arith)) (scan_stops zero seq last a ends)
    scan-visit_all (suc rounds) last small reads seq a es positive enough v =
        elim (dec_lt last seq) [
          | yes over ↦
              let ends : scan_goes_on seq last ≡ false = ground arith in
              rw (Covers-empty seq last es v over) (scan_stops (suc rounds) seq last a ends)
          | no more ↦
              let goes : scan_goes_on seq last ≡ true = ground arith in
              let later = next_rounds rounds seq last in
              let walks = scan-visit_all rounds last small reads in
              elim (Fetched-cases (get_msg s stream seq)) [
                | inl (b, e) ↦
                    let (rest, same, v') = Covers-found seq last b es v e in
                    rw same (
                      found_round rounds seq last a b rest goes e
                        (λ a'. later a' rest small (omega arith) (omega arith) walks v'))
                | inr (inl e) ↦
                    round_missing rounds seq last a goes e
                    ∙ later a es small (omega arith) (omega arith) walks
                        (Covers-missing seq last es v e)
                | inr (inr e) ↦ absurd (reads seq e)
              ]
        ]
