-- ===== src/Postgres/Reconnect.antt =====
-- postgres_workqueue/listener.go: when the listener connects again, and what it wakes then.
use workqueue_modules.Prelude.{
  ℕ, zero, suc, ◌*◌, ◌^◌, ◌≤◌, ◌≡◌, refl, ap, String, true, some, List, [], ◌∷◌, str_eq,
  if◌then◌else◌, if_intro, arith, min, lookup, length,
}
use workqueue_modules.Prelude.Int.{pos, ◌*ℤ◌, ltb_ℤ, wrap64, wrap64_double_fits}
use workqueue_modules.Workqueue.{Duration}
use workqueue_modules.Workqueue.Options.{second}
use workqueue_modules.Postgres.State.{
  PostgresWorkQueue, broadcast_all, broadcast_local-keeps, broadcast_all-keeps,
  broadcast_all-closes,
}
use workqueue_modules.Postgres.Listener.{
  Connection, refused, receives, on_wake, wake_each, listen_once, listen_round, delays, min_backoff,
  max_backoff,
}

-- The delay after `n` others.
abbrev delay : ℕ → Duration
delay n = pos (min (second * 2 ^ n) (30 * second))

-- The first `k` delays from the `n`-th on.
abbrev pub schedule : ℕ → ℕ → List Duration
schedule n zero = []
schedule n (suc k) = delay n ∷ schedule (suc n) k

pow_positive : (n : ℕ) → 1 ≤ 2 ^ n
pow_positive zero = omega arith
pow_positive (suc n) = omega (arith, pow_positive n)

delay_doubles :
    (n : ℕ)
    → (if ltb_ℤ (wrap64 (delay n *ℤ pos 2)) max_backoff
        then wrap64 (delay n *ℤ pos 2)
        else max_backoff)
      ≡ delay (suc n)
delay_doubles n =
    rw (wrap64_double_fits (min (second * 2 ^ n) (30 * second)) (omega arith)) (ground arith)

delays_from :
    {D : Type 0} (q : PostgresWorkQueue D) (n : ℕ) (connections : List Connection)
    → delays q (delay n) connections ≡ schedule n (length connections)
unfolding delays listen_round
delays_from q n [] = refl
delays_from q n (refused ∷ connections) =
    ap (◌∷◌ (delay n))
      (rw (delay_doubles n) (delays_from (listen_once q refused) (suc n) connections))
delays_from q n (receives payloads ∷ connections) =
    ap (◌∷◌ (delay n))
      (rw (delay_doubles n) (delays_from (listen_once q (receives payloads)) (suc n) connections))

-- Whatever the connections do, and however long each of them received notifications before it broke,
-- the listener waits 1 s, 2 s, 4 s, 8 s, 16 s and then 30 s each time before it connects again: a
-- connection that worked does not bring the delay back to 1 s.
pub delays_lem :
    {D : Type 0} (q : PostgresWorkQueue D) (connections : List Connection)
    → delays q min_backoff connections ≡ schedule 0 (length connections)
delays_lem q connections = delays_from q 0 connections

module _ {D : Type 0} where
  on_wake-keeps :
      (q : PostgresWorkQueue D) (payload : String) (c : ℕ)
      → q.closed c ≡ true
      → (on_wake q payload).closed c ≡ true
  unfolding on_wake
  on_wake-keeps q payload c h =
      if_intro {A = PostgresWorkQueue D} (λ r. r.closed c ≡ true) (str_eq payload "")
        (λ e. broadcast_all-keeps q c h) (λ e. broadcast_local-keeps q payload c h)

  wake_each-keeps :
      (q : PostgresWorkQueue D) (payloads : List String) (c : ℕ)
      → q.closed c ≡ true
      → (wake_each q payloads).closed c ≡ true
  unfolding wake_each
  wake_each-keeps q [] c h = h
  wake_each-keeps q (payload ∷ payloads) c h =
      wake_each-keeps (on_wake q payload) payloads c (on_wake-keeps q payload c h)

  -- A connection that subscribes wakes the workers of every queue, whatever was notified while there
  -- was none: each wake channel that a worker waits on is closed.
  pub listen_once-closes :
      (q : PostgresWorkQueue D) (payloads : List String) (name : String) (c : ℕ)
      → lookup name q.notifies ≡ some c
      → (listen_once q (receives payloads)).closed c ≡ true
  unfolding listen_once on_wake
  listen_once-closes q payloads name c h =
      wake_each-keeps (broadcast_all q) payloads c (broadcast_all-closes q name c h)
