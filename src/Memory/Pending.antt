-- ===== src/Memory/Pending.antt =====
-- memory_workqueue/workqueue.go: the items of the pending heap and their order.
use workqueue_modules.Prelude.{◌≡◌, Bool, true, false, not, [], arith, ltb, ◌==◌, if◌then◌else◌}
use workqueue_modules.Prelude.Int.{ℤ, pos, ltb_ℤ}
use workqueue_modules.Workqueue.{Task}
use workqueue_modules.Memory.Heap.Order.{IsWeakOrder}

pub record PendingItem : Type 0 where
  pub task : Task
  pub seq : ℤ

-- `Less` on two items of the heap.
unfoldable pub less : PendingItem → PendingItem → Bool
less x y =
    if not (x.task.run_at == y.task.run_at)
    then ltb x.task.run_at y.task.run_at
    else ltb_ℤ x.seq y.seq

-- The zero value of a task and of an item.
abbrev pub zero_task : Task
zero_task = record {
  id = "";
  queue = "";
  payload = [];
  metadata = [];
  attempts = pos 0;
  max_retries = pos 0;
  enqueued_at = 0;
  run_at = 0;
  last_error = "";
  died_at = 0;
}

abbrev pub zero_item : PendingItem
zero_item = record { task = zero_task; seq = pos 0 }

less_asym : (x y : PendingItem) → less x y ≡ true → less y x ≡ false
unfolding less
less_asym x y h = ground arith

less_trans : (x y z : PendingItem) → less y x ≡ false → less z y ≡ false → less z x ≡ false
unfolding less
less_trans x y z h k = ground arith

-- `Less` is the order that container/heap asks for.
pub less-IsWeakOrder : IsWeakOrder less
less-IsWeakOrder = record { asym = less_asym; trans = less_trans }
