-- ===== src/Nats/Ends.antt =====
-- nats_workqueue/workqueue.go: the end of the loop of scanDeadTasks.
use native.Mathlib.Decide.{dec_lt}
use mathlib.Core.Path.{fun_ext}
use workqueue_modules.Prelude.{
  ℕ, zero, suc, ◌+◌, ◌^◌, ◌<◌, ◌≡◌, ap, sym, ◌∙◌, String, Bool, Bool-cases, inl, inr, true, false,
  arith,
}
use workqueue_modules.Nats.Broker.{JetStream, TaskCodec}
use workqueue_modules.Nats.Scan.{DeadEntry, scan_goes_on, next_seq, scan_round, scan_loop}
use workqueue_modules.Nats.Walk.{scan_stops}

past :
    {seq last : ℕ}
    → last < 2 ^ 64
    → ¬ seq < last
    → scan_goes_on seq last ≡ true
    → scan_goes_on (next_seq seq) last ≡ false
past {seq} {last} small there t = ground arith

module _ (J : JetStream) (j : TaskCodec) (s : J.Server) (stream : String) where
  module _ {A : Type 0} (visit : A → DeadEntry → A × Bool) where
    -- Both runs stop here.
    stops_alike :
        (rounds more seq last : ℕ) (a : A)
        → scan_goes_on seq last ≡ false
        → scan_loop J j s stream visit more seq last a
          ≡ scan_loop J j s stream visit rounds seq last a
    stops_alike rounds more seq last a h =
        scan_stops J j s stream visit more seq last a h
        ∙ sym (scan_stops J j s stream visit rounds seq last a h)

    -- The loop of scanDeadTasks leaves by its own condition, by its visitor or by an error: from
    -- `seq` on, with a last sequence number below 2^64, all numbers of rounds of which `seq` plus
    -- the rounds is above the last number give the same result, also where the number after the
    -- last one wraps around to 0.
    pub scan_terminates :
        (rounds more seq last : ℕ) (a : A)
        → last < 2 ^ 64
        → last < seq + rounds
        → last < seq + more
        → scan_loop J j s stream visit rounds seq last a
          ≡ scan_loop J j s stream visit more seq last a
    unfolding scan_loop
    scan_terminates zero more seq last a small h h' =
        stops_alike more zero seq last a (ground arith)
    scan_terminates (suc rounds) zero seq last a small h h' =
        stops_alike zero (suc rounds) seq last a (ground arith)
    scan_terminates (suc rounds) (suc more) seq last a small h h' =
        elim (Bool-cases (scan_goes_on seq last)) [
          | inr f ↦ stops_alike (suc more) (suc rounds) seq last a f
          | inl t ↦
              ap (λ rest. scan_round J j s stream visit rest seq last a)
                (fun_ext (λ a'. elim (dec_lt seq last) [
                  | yes below ↦
                      let next : next_seq seq ≡ suc seq = omega arith in
                      rw next (
                        scan_terminates rounds more (suc seq) last a' small (omega arith)
                          (omega arith))
                  | no there ↦ stops_alike more rounds (next_seq seq) last a' (past small there t)
                ]))
        ]
