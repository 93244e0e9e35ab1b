-- ===== src/Tests/OfEngine.antt =====
-- The theorems on the engine, for a handler that fails and storages that work and do not.
use flowforge.Base.{ℕ, ◌≡◌, refl, [], ◌∷◌, some, false, other, All, arith, add_int64}
use flowforge.Task.{mark_processing, Task, is_exhausted, new_task}
use flowforge.Storage.Queries.{list_undispatched_pending}
use flowforge.Storage.Statement.{run}
use flowforge.Storage.{reclaim_expired, inserted_row, to_domain, claimed_row}
use flowforge.Engine.{
  HandlerRun, HandlerError, returned, ended, Report, execute, run_handler, of_storage,
}
use flowforge.Engine.Outcomes.{IsDecided, settling_call, execute_decides, execute_untouched}
use flowforge.Engine.Deployed.{World, postgres, beside_broker, beside_observers}
use flowforge.Engine.Settling.{IsReleased, status_of, execute_settles}
use flowforge.Engine.Loops.{reclaim_tick, reconciliation_tick}
use flowforge.Engine.Loops.Histories.{scans_of, offer_all, markers, ticks-eq-offer_all}
use flowforge.Tests.Samples.{running_row, unlocked, float, engine, broker, observers, broken}

abbrev refused : HandlerError
refused = record { text = "mailbox full"; retryable = false }

abbrev handler : ℕ → HandlerRun
handler timeout = returned (some refused)

abbrev running : Task
running = to_domain running_row

handler_ended : run_handler (returned (some refused)) ≡ ended (some refused)
unfolding run_handler
handler_ended = refl

execute_decides_example :
    (r : Report ℕ) × (execute float broken broker observers engine running handler 5000 0 ≡ some r)
    × IsDecided running (some refused) r.2.outcome
unfolding claimed_row inserted_row new_task mark_processing to_domain add_int64
execute_decides_example =
    execute_decides float broken broker observers engine running handler 5000 0 (some refused)
      (omega arith) (omega arith) handler_ended

execute_untouched_example :
    (r : Report ℕ) × (execute float broken broker observers engine running handler 5000 0 ≡ some r)
    × (r.0
        ≡ (settling_call float broken broker observers engine running handler 5000 0
            (some refused)).0)
    × (r.1.status ≡ running.status)
    × (r.2.error ≡ some (of_storage (other "connection reset")))
unfolding is_exhausted
execute_untouched_example =
    execute_untouched float broken broker observers engine running handler 5000 0 (some refused)
      (other "connection reset") handler_ended (ground arith)

abbrev world : World ℕ
world = record { table = running_row ∷ []; rest = 0 }

execute_settles_example :
    (r : Report (World ℕ)) × (execute float
        (postgres unlocked)
        (beside_broker broker)
        (beside_observers observers)
        engine
        running
        handler
        5000
        world
      ≡ some r)
    × All (IsReleased running.org_id running.id (status_of r.2.outcome)) r.0.table
unfolding claimed_row mark_processing
execute_settles_example =
    execute_settles float unlocked broker observers engine running 5000 world handler (some refused)
      handler_ended ((λ named. refl), tt)

abbrev clock : ℕ → ℕ
clock id = 99000000000

ticks-eq-offer_all_example :
    (reclaim_tick
        (scans_of unlocked 0)
        (postgres unlocked)
        (beside_broker broker)
        1
        "mail"
        90000000000
        clock
        world
      ≡ (let (rows, ts) = reclaim_expired unlocked 1 "mail" 90000000000 100 world.table in
          let (b, accepted) = offer_all broker ts world.rest in
          record { table = run (markers (λ t. t.org_id) clock accepted) rows; rest = b }))
    × (reconciliation_tick
          (scans_of unlocked 0)
          (postgres unlocked)
          (beside_broker broker)
          1
          "mail"
          clock
          world
        ≡ (let ts = list_undispatched_pending 1 "mail" 100 0 world.table in
            let (b, accepted) = offer_all broker ts world.rest in
            record { table = run (markers (λ _. 1) clock accepted) world.table; rest = b }))
ticks-eq-offer_all_example = ticks-eq-offer_all unlocked 0 broker 1 "mail" 90000000000 clock world
