-- ===== src/Postgres/Channels.antt =====
-- postgres_workqueue/workqueue.go: the wake channels under notify, broadcastLocal and broadcastAll.
use workqueue_modules.Prelude.{
  ℕ, suc, ◌≤◌, ◌<◌, ◌≡◌, ◌≢◌, ◌⊎◌, inl, inr, refl, sym, ap, ◌∙◌, String, Bool, true, false, Option,
  none, some, List, [], ◌∷◌, str_eq, arith, lookup, insert, lookup-insert_self, lookup-insert_ne,
  eq_iff, Bool-cases, Option-cases, subst,
}
use workqueue_modules.Sql.Channels.{
  Apart, IsLive, fresh-Apart, lookup-Apart, insert-IsLive, lookup-IsLive,
}
use workqueue_modules.Postgres.State.{
  PostgresWorkQueue, new, notify, broadcast_local, broadcast_all, close_all, close, close_found,
  Config, broadcast_local-keeps, broadcast_local-closes, broadcast_all-keeps, broadcast_all-closes,
}

-- Every channel of a queue has been made, is open and is no other queue's.
pub record AllOpen {D : Type 0} (q : PostgresWorkQueue D) : Type 0 where
  pub live : IsLive q.channels q.closed q.notifies
  pub unmade : (c : ℕ) → q.channels ≤ c → q.closed c ≡ false

-- All channels of the entries are at or above the bound.
abbrev AtLeast : ℕ → List (String × ℕ) → Type 0
AtLeast n [] = ◌≡◌ {A = Bool} true true
AtLeast n ((_, c) ∷ entries) = (n ≤ c) × AtLeast n entries

AtLeast-Apart :
    (entries : List (String × ℕ)) (n c : ℕ) → c < n → AtLeast n entries → Apart c entries
AtLeast-Apart [] n c h a = refl
AtLeast-Apart ((_, ch) ∷ entries) n c h (le, rest) =
    (λ e. absurd (omega arith), AtLeast-Apart entries n c h rest)

AtLeast-pred : (entries : List (String × ℕ)) (n : ℕ) → AtLeast (suc n) entries → AtLeast n entries
AtLeast-pred [] n a = refl
AtLeast-pred ((_, ch) ∷ entries) n (le, rest) = (omega arith, AtLeast-pred entries n rest)

close-spares :
    (ch : ℕ) (closed : ℕ → Bool) (c : ℕ) → c ≢ ch → closed c ≡ false → close ch closed c ≡ false
unfolding close
close-spares ch closed c apart h = ground arith

close_found-spares :
    (o : Option ℕ) (closed : ℕ → Bool) (c : ℕ)
    → o ≢ some c
    → closed c ≡ false
    → close_found o closed c ≡ false
unfolding close_found
close_found-spares none closed c apart h = h
close_found-spares (some ch) closed c apart h =
    close-spares ch closed c (λ e. apart (ap some (sym e))) h

-- What the loop of broadcastAll leaves, of entries whose channels are below `n`, when all from `n` on
-- are open: new channels from `fresh` on, and those from `n` on are open still.
record Renewed (n fresh : ℕ) (entries : List (String × ℕ)) (fresh' : ℕ) (closed : ℕ → Bool)
    : Type 0 where
  grows : fresh ≤ fresh'
  above : AtLeast fresh entries
  opened : (c : ℕ) → n ≤ c → closed c ≡ false
  live : IsLive fresh' closed entries

close_all-Renewed :
    (n fresh : ℕ) (entries : List (String × ℕ)) (before closed : ℕ → Bool)
    → n ≤ fresh
    → IsLive n before entries
    → ((c : ℕ) → n ≤ c → closed c ≡ false)
    → let (entries', fresh', closed') = close_all entries fresh closed in
      Renewed n fresh entries' fresh' closed'
unfolding close_all
close_all-Renewed n fresh [] before closed le v h = record {
  grows = omega arith;
  above = refl;
  opened = h;
  live = refl;
}
close_all-Renewed n fresh ((name, ch) ∷ entries) before closed le (made, _, _, rest) h =
    let w =
      close_all-Renewed n (suc fresh) entries before (close ch closed) (omega arith) rest
        (λ c g. close-spares ch closed c (omega arith) (h c g)) in
    record {
      grows = omega (arith, w.grows);
      above = (omega arith, AtLeast-pred _ fresh w.above);
      opened = w.opened;
      live = (
        omega (arith, w.grows),
        w.opened fresh le,
        AtLeast-Apart _ (suc fresh) fresh (omega arith) w.above,
        w.live,
      );
    }

module _ {D : Type 0} where
  pub new-AllOpen : (db : Option D) (config : Config) → AllOpen (new db config)
  unfolding new
  new-AllOpen db config = record { live = refl; unmade = λ c h. refl }

  pub broadcast_local-AllOpen :
      (q : PostgresWorkQueue D) (name : String) → AllOpen q → AllOpen (broadcast_local q name)
  unfolding broadcast_local
  broadcast_local-AllOpen q name v =
      let o = lookup name q.notifies in
      let fresh : (c : ℕ) → q.channels ≤ c → o ≢ some c = λ c h.
        lookup-Apart q.notifies c name (fresh-Apart q.channels q.closed q.notifies c h v.live) in
      record {
        live =
            insert-IsLive q.notifies name q.channels q.closed (close_found o q.closed)
              (close_found-spares o q.closed q.channels (fresh q.channels (omega arith))
                (v.unmade q.channels (omega arith)))
              (λ c opened apart. close_found-spares o q.closed c apart opened) v.live;
        unmade = λ c h.
            close_found-spares o q.closed c (fresh c (omega arith)) (v.unmade c (omega arith));
      }

  pub broadcast_all-AllOpen : (q : PostgresWorkQueue D) → AllOpen q → AllOpen (broadcast_all q)
  unfolding broadcast_all
  broadcast_all-AllOpen q v =
      let w : let (entries, fresh, closed) = close_all q.notifies q.channels q.closed in
          Renewed q.channels q.channels entries fresh closed =
        close_all-Renewed q.channels q.channels q.notifies q.closed q.closed (omega arith) v.live
          v.unmade in
      record { live = w.live; unmade = λ c h. w.opened c (omega (arith, w.grows)) }

  -- The two branches of notify.
  notify-cases :
      (q : PostgresWorkQueue D) (name : String)
      → (let q' = record q {
        notifies = insert name q.channels q.notifies;
        channels = suc q.channels;
      } in
          (lookup name q.notifies ≡ none) × (notify q name ≡ (q', q.channels)))
        ⊎ ((ch : ℕ) × (lookup name q.notifies ≡ some ch) × (notify q name ≡ (q, ch)))
  unfolding notify
  notify-cases q name = elim (Option-cases (lookup name q.notifies)) [
    | inl e ↦ inl (e, rw (notify, e) refl)
    | inr (ch, e) ↦ inr (ch, e, rw (notify, e) refl)
  ]

  pub notify-AllOpen :
      (q : PostgresWorkQueue D) (name : String) → AllOpen q → AllOpen (notify q name).0
  notify-AllOpen q name v = elim (notify-cases q name) [
    | inl (_, e) ↦
        subst (λ r. AllOpen r.0) (sym e)
          (record {
            live =
                insert-IsLive q.notifies name q.channels q.closed q.closed
                  (v.unmade q.channels (omega arith)) (λ c opened apart. opened) v.live;
            unmade = λ c h. v.unmade c (omega arith);
          })
    | inr (ch, _, e) ↦ subst (λ r. AllOpen r.0) (sym e) v
  ]

  -- The channel that a worker is given is open, and its queue's.
  pub notify-opened :
      (q : PostgresWorkQueue D) (name : String)
      → AllOpen q
      → let (q', ch) = notify q name in (q'.closed ch ≡ false) × (lookup name q'.notifies ≡ some ch)
  notify-opened q name v = elim (notify-cases q name) [
    | inl (_, e) ↦
        subst (λ r. (r.0.closed r.1 ≡ false) × (lookup name r.0.notifies ≡ some r.1)) (sym e)
          (v.unmade q.channels (omega arith), lookup-insert_self name q.channels q.notifies)
    | inr (ch, found, e) ↦
        subst (λ r. (r.0.closed r.1 ≡ false) × (lookup name r.0.notifies ≡ some r.1)) (sym e)
          (lookup-IsLive q.channels q.closed q.notifies name ch v.live found, found)
  ]

  pub notify-keeps :
      (q : PostgresWorkQueue D) (name : String) (c : ℕ)
      → q.closed c ≡ true
      → (notify q name).0.closed c ≡ true
  notify-keeps q name c h = elim (notify-cases q name) [
    | inl (_, e) ↦ rw e h
    | inr (_, _, e) ↦ rw e h
  ]

  -- A worker's channel has been closed, or it is still the channel of its queue.
  abbrev pub Waits : String → ℕ → PostgresWorkQueue D → Type 0
  Waits name ch q = (q.closed ch ≡ true) ⊎ (lookup name q.notifies ≡ some ch)

  pub notify-Waits :
      (q : PostgresWorkQueue D) (other name : String) (ch : ℕ)
      → Waits name ch q
      → Waits name ch (notify q other).0
  notify-Waits q other name ch w = elim (notify-cases q other) [
    | inl (missing, e) ↦
        subst (λ r. Waits name ch r.0) (sym e)
          (elim w [
            | inl closed ↦ inl closed
            | inr found ↦
                let apart : other ≢ name =
                  λ e'. cc (missing, found, ap (λ k. lookup k q.notifies) e') in
                inr (lookup-insert_ne other name q.channels q.notifies apart ∙ found)
          ])
    | inr (_, _, e) ↦ subst (λ r. Waits name ch r.0) (sym e) w
  ]

  -- A broadcast of its queue or of all closes it.
  pub broadcast_local-wakes :
      (q : PostgresWorkQueue D) (name : String) (ch : ℕ)
      → Waits name ch q
      → (broadcast_local q name).closed ch ≡ true
  broadcast_local-wakes q name ch (inl closed) = broadcast_local-keeps q name ch closed
  broadcast_local-wakes q name ch (inr found) = broadcast_local-closes q name ch found

  pub broadcast_all-wakes :
      (q : PostgresWorkQueue D) (name : String) (ch : ℕ)
      → Waits name ch q
      → (broadcast_all q).closed ch ≡ true
  broadcast_all-wakes q name ch (inl closed) = broadcast_all-keeps q ch closed
  broadcast_all-wakes q name ch (inr found) = broadcast_all-closes q name ch found

  pub broadcast_local-Waits :
      (q : PostgresWorkQueue D) (other name : String) (ch : ℕ)
      → Waits name ch q
      → Waits name ch (broadcast_local q other)
  unfolding broadcast_local
  broadcast_local-Waits q other name ch (inl closed) = inl (broadcast_local-keeps q other ch closed)
  broadcast_local-Waits q other name ch (inr found) = elim (Bool-cases (str_eq other name)) [
    | inl t ↦ inl (
        subst (λ k. (broadcast_local q k).closed ch ≡ true) (sym ((eq_iff other name).0 t))
          (broadcast_local-closes q name ch found))
    | inr t ↦ inr (
        lookup-insert_ne other name q.channels q.notifies (λ e. cc ((eq_iff other name).1 e, t))
        ∙ found)
  ]
