-- ===== src/Gorm/State.antt =====
-- gorm_workqueue/workqueue.go: the configuration, the state in memory and its wake channels. A
-- channel is a number; those below `channels` have been made.
use workqueue_modules.Prelude.{
  ℕ, suc, ◌*◌, String, Bool, true, false, Option, none, some, List, [], ◌==◌, str_eq, if◌then◌else◌,
  lookup, insert,
}
use workqueue_modules.Prelude.Int.{pos, leb_ℤ}
use workqueue_modules.Workqueue.{Duration}
use workqueue_modules.Workqueue.Options.{second}

pub record Config : Type 0 where
  pub table_name : String
  pub poll_interval : Duration
  pub lease_duration : Duration

default_table_name : String
default_table_name = "workqueue_tasks"

default_poll_interval : Duration
default_poll_interval = pos second

default_lease_duration : Duration
default_lease_duration = pos (5 * 60 * second)

unfoldable pub with_defaults : Config → Config
unfolding default_table_name default_poll_interval default_lease_duration
with_defaults c = record {
  table_name = if str_eq c.table_name "" then default_table_name else c.table_name;
  poll_interval = if leb_ℤ c.poll_interval (pos 0) then default_poll_interval else c.poll_interval;
  lease_duration =
      if leb_ℤ c.lease_duration (pos 0) then default_lease_duration else c.lease_duration;
}

-- `db` is nil until OnStart resolves the handle.
pub record GormWorkQueue (D : Type 0) : Type 0 where
  pub db : Option D
  pub config : Config
  pub notifies : List (String × ℕ)
  pub channels : ℕ
  pub closed : ℕ → Bool

close : Option ℕ → (ℕ → Bool) → ℕ → Bool
close none closed c = closed c
close (some ch) closed c = if c == ch then true else closed c

module _ {D : Type 0} where
  unfoldable pub new : Option D → Config → GormWorkQueue D
  new db config = record {
    db = db;
    config = with_defaults config;
    notifies = [];
    channels = 0;
    closed = λ c. false;
  }

  unfoldable pub notify : GormWorkQueue D → String → GormWorkQueue D × ℕ
  notify q name = elim (lookup name q.notifies) [
    | some ch ↦ (q, ch)
    | none ↦ (
      record q { notifies = insert name q.channels q.notifies; channels = suc q.channels },
      q.channels,
    )
  ]

  unfoldable pub broadcast_local : GormWorkQueue D → String → GormWorkQueue D
  unfolding close
  broadcast_local q name = record q {
    notifies = insert name q.channels q.notifies;
    channels = suc q.channels;
    closed = close (lookup name q.notifies) q.closed;
  }
