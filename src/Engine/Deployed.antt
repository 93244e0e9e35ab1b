-- ===== src/Engine/Deployed.antt =====
-- The engine's ports as they are deployed: storage is the tasks table of Storage, and the broker,
-- the publisher and the recorder change a state of their own, which is not the table.
use flowforge.Base.{ℕ, Bool, Error, other, err, some, if◌then◌else◌}
use flowforge.Storage.{Table}
use flowforge.Storage
use flowforge.Ports.{TaskStorage, TaskBroker, Observers}

pub record World (B : Type 0) : Type 0 where
  pub table : Table
  pub rest : B

-- what a database that is away answers
abbrev pub database_error : Error
database_error = other "connection refused"

module _ {B : Type 0} where
  abbrev pub with_table {ℓ} : {E : Type ℓ} → World B → Table × E → World B × E
  with_table w (rows, e) = (record { table = rows; rest = w.rest }, e)

  abbrev pub with_rest {ℓ} : {E : Type ℓ} → World B → B × E → World B × E
  with_rest w (b, e) = (record { table = w.table; rest = b }, e)

  -- `locked` names the rows that other transactions have locked when the claim runs.
  abbrev pub postgres : (locked : ℕ → Bool) → TaskStorage (World B)
  postgres locked = record {
    claim_for_processing = λ org id worker now w.
        with_table w (Storage.claim_for_processing locked org id worker now w.table);
    complete = λ org id now w. with_table w (Storage.complete org id now w.table);
    fail = λ org id message next visible_at now w.
        with_table w (Storage.fail org id message next visible_at now w.table);
    move_to_dead_letter = λ org id message now w.
        with_table w (Storage.move_to_dead_letter org id message now w.table);
    mark_dispatched = λ org id now w. with_table w (Storage.mark_dispatched org id now w.table);
    create = λ t w. with_table w (Storage.create t w.table);
    get_by_id = λ org id w. (w, Storage.get_by_id org id w.table);
    find_by_idempotency_key =
        λ org queue key w. (w, Storage.find_by_idempotency_key org queue key w.table);
    requeue = λ org id now w. with_table w (Storage.requeue org id now w.table);
    cancel = λ org id now w. with_table w (Storage.cancel org id now w.table);
    soft_delete = λ org id now w. with_table w (Storage.soft_delete org id now w.table);
  }

  -- The same over a database that is away while `down` holds of what is beside the table: then the
  -- claim and the calls that settle a task fail, and change nothing.
  abbrev pub faulty : (locked : ℕ → Bool) (down : B → Bool) → TaskStorage (World B)
  faulty locked down = record (postgres locked) {
    claim_for_processing = λ org id worker now w.
        if down w.rest
        then (w, err database_error)
        else with_table w (Storage.claim_for_processing locked org id worker now w.table);
    complete = λ org id now w.
        if down w.rest
        then (w, some database_error)
        else with_table w (Storage.complete org id now w.table);
    fail = λ org id message next visible_at now w.
        if down w.rest
        then (w, some database_error)
        else with_table w (Storage.fail org id message next visible_at now w.table);
    move_to_dead_letter = λ org id message now w.
        if down w.rest
        then (w, some database_error)
        else with_table w (Storage.move_to_dead_letter org id message now w.table);
  }

  abbrev pub beside_broker : TaskBroker B → TaskBroker (World B)
  beside_broker broker = record {
    ack = λ org queue id w. with_rest w (broker.ack org queue id w.rest);
    nack = λ org queue id delay w. with_rest w (broker.nack org queue id delay w.rest);
    bury = λ org queue id w. with_rest w (broker.bury org queue id w.rest);
    enqueue = λ t w. with_rest w (broker.enqueue t w.rest);
    enqueue_delayed = λ t delay w. with_rest w (broker.enqueue_delayed t delay w.rest);
    remove = λ org queue id w. with_rest w (broker.remove org queue id w.rest);
  }

  abbrev pub beside_observers : Observers B → Observers (World B)
  beside_observers observers = record {
    publish_task_event =
        λ event t w. record { table = w.table; rest = observers.publish_task_event event t w.rest };
    record_metric =
        λ metric w. record { table = w.table; rest = observers.record_metric metric w.rest };
  }
