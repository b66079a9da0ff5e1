-- ===== src/Nats/Entries.antt =====
-- The messages of a stream, as a list: what an acknowledgement leaves, and their order.
use mathlib.Core.List.{mem-cons, not-mem-nil, mem-cons_self, mem-cons_of_mem, Mem-prop}
use mathlib.Core.Logic.Or
use native.Mathlib.Bridge.{le_prop}
use workqueue_modules.Prelude.{ℕ, ◌<◌, ◌≢◌, List, [], ◌∷◌, ◌++◌, Mem, arith, ◌==◌, if_intro}
use workqueue_modules.Nats.Broker.{Entry, without_seq, IsAscending}

pub mem-without_seq :
    (k : ℕ) (es : List Entry) (e : Entry) → Mem e es → e.seq ≢ k → Mem e (without_seq k es)
unfolding without_seq
mem-without_seq k [] e m other = m
mem-without_seq k (f ∷ es) e m other =
    if_intro (λ l. Mem e l) (f.seq == k)
      (λ t.
        Or.elim Mem-prop (mem-cons.0 m) (λ same. absurd (other (rw same (ground arith))))
          (λ below. mem-without_seq k es e below other))
      (λ t.
        Or.elim Mem-prop (mem-cons.0 m) (λ same. rw same mem-cons_self)
          (λ below. mem-cons_of_mem f (mem-without_seq k es e below other)))

pub mem-appended : (es : List Entry) (e : Entry) → Mem e (es ++ e ∷ [])
mem-appended [] e = mem-cons_self
mem-appended (f ∷ es) e = mem-cons_of_mem f (mem-appended es e)

-- What is appended to a stream has a later number than what was there.
pub appended_later :
    (es : List Entry) (last e : Entry) → IsAscending (es ++ last ∷ []) → Mem e es → e.seq < last.seq
appended_later [] last e up m = absurd (not-mem-nil m)
appended_later (f ∷ es) last e (above, up) m =
    Or.elim le_prop (mem-cons.0 m) (λ same. rw same (above last (mem-appended es last)))
      (appended_later es last e up)
