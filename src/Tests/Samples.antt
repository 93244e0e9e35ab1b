-- ===== src/Tests/Samples.antt =====
-- Sample tasks, rows and ports that the tests share.
use flowforge.Base.{ℕ, suc, ◌*◌, ◌≤◌, ◌≡◌, ltb, none, some, Bool, false, other, err, arith}
use flowforge.Task.{Task, new_task, mark_processing}
use flowforge.Storage.{TaskRow, inserted_row, to_domain, claimed_row, completed_row}
use flowforge.Ports.{TaskStorage, TaskBroker, Observers}
use flowforge.Retry.{Float64, RetryPolicy}
use flowforge.Engine.{Engine}

abbrev pub mail : Task
mail = new_task 7 1000 1 "mail" "{}" "welcome" "f" 3 30000000000

abbrev pub mail_row : TaskRow
mail_row = inserted_row mail

abbrev pub running_row : TaskRow
running_row = claimed_row (mark_processing "w1" 2000 (to_domain mail_row)) 2000 mail_row

abbrev pub done_row : TaskRow
done_row = completed_row 5000 running_row

abbrev pub unlocked : ℕ → Bool
unlocked id = false

pub nat_mono : (m n : ℕ) → m ≤ n → ltb n m ≡ false
nat_mono m n h = ground arith

pub nat_le : (x n : ℕ) → ltb n x ≡ false → x ≤ n
nat_le x n h = ground arith

-- natural numbers in place of floats
abbrev pub float : Float64
float = record {
  F = ℕ;
  of_int64 = λ n. n;
  to_int64 = λ n. n;
  times = λ x y. x * y;
  gt = λ x y. ltb y x;
  IsMeasure = λ x. Unit;
  of_int64-IsMeasure = λ n h. tt;
  of_int64-mono = λ m n h k. nat_mono m n h;
  times-IsMeasure = λ x y n h p q k. tt;
  to_int64-le = λ x n h p k. nat_le x n k;
}

abbrev pub policy : RetryPolicy float
policy = record { max_attempts = 3; initial_backoff = 5; max_backoff = 60; backoff_multiplier = 2 }

abbrev pub engine : Engine float
engine = record { retry_policy = policy; task_timeout = 100 }

-- ports that count their calls
abbrev pub broker : TaskBroker ℕ
broker = record {
  ack = λ org queue id n. (suc n, none);
  nack = λ org queue id delay n. (suc n, none);
  bury = λ org queue id n. (suc n, none);
  enqueue = λ t n. (suc n, none);
  enqueue_delayed = λ t delay n. (suc n, none);
  remove = λ org queue id n. (suc n, none);
}

abbrev pub observers : Observers ℕ
observers = record { publish_task_event = λ event t n. suc n; record_metric = λ metric n. suc n }

-- a storage whose calls all fail
abbrev pub broken : TaskStorage ℕ
broken = record {
  claim_for_processing = λ org id worker now n. (n, err (other "connection reset"));
  complete = λ org id now n. (suc n, some (other "connection reset"));
  fail = λ org id message next visible_at now n. (suc n, some (other "connection reset"));
  move_to_dead_letter = λ org id message now n. (suc n, some (other "connection reset"));
  mark_dispatched = λ org id now n. (suc n, some (other "connection reset"));
  create = λ t n. (suc n, some (other "connection reset"));
  get_by_id = λ org id n. (suc n, err (other "connection reset"));
  find_by_idempotency_key = λ org queue key n. (suc n, err (other "connection reset"));
  requeue = λ org id now n. (suc n, some (other "connection reset"));
  cancel = λ org id now n. (suc n, err (other "connection reset"));
  soft_delete = λ org id now n. (suc n, some (other "connection reset"));
}
