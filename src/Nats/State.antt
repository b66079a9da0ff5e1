-- ===== src/Nats/State.antt =====
-- nats_workqueue/workqueue.go: the configuration, the state of the backend, and the identifiers of its
-- messages.
use workqueue_modules.Prelude.{
  ℕ, zero, suc, ◌+◌, ◌*◌, ◌/◌, ◌%◌, String, str_append, Option, some, List, [], ltb, str_eq,
  if◌then◌else◌,
}
use workqueue_modules.Prelude.Int.{ℤ, pos, negsuc, pos_part, leb_ℤ, ltb_ℤ}
use workqueue_modules.Workqueue.{Duration}
use workqueue_modules.Workqueue.Options.{second}
use Prim.Native.String.{slice}

pub record Config : Type 0 where
  pub stream_prefix : String
  pub subject_prefix : String
  pub replicas : ℤ
  pub ack_wait : Duration

default_stream_prefix : String
default_stream_prefix = "WORKQUEUE"

default_subject_prefix : String
default_subject_prefix = "workqueue"

default_ack_wait : Duration
default_ack_wait = pos (30 * second)

unfoldable pub with_defaults : Config → Config
unfolding default_stream_prefix default_subject_prefix default_ack_wait
with_defaults c = record {
  stream_prefix = if str_eq c.stream_prefix "" then default_stream_prefix else c.stream_prefix;
  subject_prefix = if str_eq c.subject_prefix "" then default_subject_prefix else c.subject_prefix;
  replicas = c.replicas;
  ack_wait = if leb_ℤ c.ack_wait (pos 0) then default_ack_wait else c.ack_wait;
}

-- `js` is nil until OnStart resolves the handle; `ensured` maps a queue to its tasks stream.
pub record NatsWorkQueue (S : Type 0) : Type 0 where
  pub config : Config
  pub js : Option S
  pub ensured : List (String × String)

unfoldable pub new : {S : Type 0} → S → Config → NatsWorkQueue S
new s config = record { config = with_defaults config; js = some s; ensured = [] }

-- The decimal digits of a number, with a bound on how many there are.
digits : ℕ → ℕ → String
digits zero n = ""
digits (suc fuel) n =
    let last = slice "0123456789" (n % 10) (n % 10 + 1) in
    let front = digits fuel (n / 10) in if ltb n 10 then last else str_append front last

-- `%d`
unfoldable pub decimal : ℤ → String
unfolding digits
decimal (pos n) = digits (suc n) n
decimal (negsuc n) = str_append "-" (digits (suc (suc n)) (suc n))

unfoldable pub attempt_msg_id : String → ℤ → String
attempt_msg_id task_id attempts =
    str_append "wq:" (str_append task_id (str_append ":" (decimal attempts)))

-- The interval of the heartbeats: `max(AckWait/3, time.Second)`, for an AckWait that is positive.
unfoldable pub heartbeat_interval : Config → Duration
heartbeat_interval c =
    let third = pos (pos_part c.ack_wait / 3) in
    if ltb_ℤ third (pos second) then pos second else third
