-- ===== src/Tests/OfStorage.antt =====
-- The theorems on the tasks table, for the sample tasks.

use flowforge.Base.{
  List, false, All, add_int64, find, affected, add_time, mul_int64, div_int64, String, ◌≡◌, ◌≢◌,
  refl, ◌↔◌, Memᴰ, [], ◌∷◌, none, some, ok, err, arith, task_already_locked,
  duplicate_idempotency_key,
}
use flowforge.Task.{Task, processing, new_task, mark_processing}
use flowforge.Storage.{
  TaskRow, Table, has_ids, millisecond, to_domain, inserted_row, claimed_row, completed_row, create,
  claim_for_processing, heartbeat, complete, claimable, find_by_idempotency_key,
}
use flowforge.Storage.Statement.{
  Statement, claim, beat, cancel_task, finish, delete_task, bury, apply, run,
}
use flowforge.Storage.Life.{Evolves, apply-Evolves}
use flowforge.Storage.Invariant.{IsConsistent, IsValid, run-IsValid}
use flowforge.Storage.Lifecycle.{StaysDone, run-StaysDone}
use flowforge.Storage.Tenancy.{tasks_of, apply_isolated}
use flowforge.Storage.Holding.{IsQuiet}
use flowforge.Storage.Claiming.{claim_excludes, heartbeat_iff, complete_unowned, claim_recovers}
use flowforge.Storage.Idempotency.{
  IsFresh, to_domain-inserted_row, create-find_by_idempotency_key, create_again,
}
use flowforge.Tests.Samples.{mail, mail_row, running_row, done_row, unlocked}

abbrev mail_claim : Statement
mail_claim = claim unlocked 1 7 "w1" 2000

abbrev mail_table : Table
mail_table = mail_row ∷ []

mail_row-IsConsistent : IsConsistent mail_row
unfolding inserted_row new_task
mail_row-IsConsistent = ground arith

mail_table-IsValid : IsValid mail_table
mail_table-IsValid = record { keyed = (tt, tt); consistent = (mail_row-IsConsistent, tt) }

apply-Evolves_example : Evolves mail_table (apply mail_claim mail_table)
apply-Evolves_example = apply-Evolves mail_claim mail_table tt (tt, tt)

run-IsValid_example :
    IsValid (run (mail_claim ∷ finish 1 7 5000 ∷ delete_task 1 7 9000 ∷ []) mail_table)
run-IsValid_example =
    run-IsValid (mail_claim ∷ finish 1 7 5000 ∷ delete_task 1 7 9000 ∷ []) mail_table
      (tt, (tt, (tt, tt))) mail_table-IsValid

done_row-IsConsistent : IsConsistent done_row
unfolding completed_row claimed_row inserted_row new_task mark_processing to_domain
done_row-IsConsistent = ground arith

done_table-IsValid : IsValid (done_row ∷ [])
done_table-IsValid = record { keyed = (tt, tt); consistent = (done_row-IsConsistent, tt) }

run-StaysDone_example :
    (s : TaskRow) × Memᴰ s
      (run (mail_claim ∷ bury 1 7 "late" 6000 ∷ delete_task 1 7 9000 ∷ []) (done_row ∷ []))
    × StaysDone done_row s
unfolding completed_row
run-StaysDone_example =
    run-StaysDone (mail_claim ∷ bury 1 7 "late" 6000 ∷ delete_task 1 7 9000 ∷ []) (done_row ∷ [])
      done_row (tt, (tt, (tt, tt))) done_table-IsValid (Memᴰ.head refl) refl

apply_isolated_example :
    tasks_of 2 (apply (claim unlocked 1 7 "w1" 2000) mail_table) ≡ tasks_of 2 mail_table
apply_isolated_example = apply_isolated (claim unlocked 1 7 "w1" 2000) 2 mail_table (omega arith)

abbrev claimed : Task
claimed = mark_processing "w1" 2000 (to_domain mail_row)

mail_claimed : (claim_for_processing unlocked 1 7 "w1" 2000 mail_table).1 ≡ ok claimed
unfolding claim_for_processing find claimable inserted_row new_task
mail_claimed = refl

abbrev after_claim : Table
after_claim = (claim_for_processing unlocked 1 7 "w1" 2000 mail_table).0

-- a second claim, the owner's heartbeat and an attempt to cancel
abbrev between : List Statement
between = claim unlocked 1 7 "w2" 2500 ∷ beat 1 7 "w1" 30000000000 3000 ∷ cancel_task 1 7 3500 ∷ []

between-IsQuiet : All (IsQuiet 1 7 claimed.visible_at) between
unfolding mark_processing to_domain inserted_row new_task add_time mul_int64 div_int64
between-IsQuiet = (λ o i. omega arith, (λ o i. omega arith, (tt, tt)))

claim_excludes_example :
    claim_for_processing unlocked 1 7 "w2" 4000 (run between after_claim)
    ≡ (run between after_claim, err task_already_locked)
unfolding mark_processing to_domain inserted_row new_task add_time mul_int64 div_int64
claim_excludes_example =
    claim_excludes unlocked 1 7 "w1" 2000 mail_table mail_claimed between unlocked "w2" 4000
      between-IsQuiet (omega arith)

abbrev worker_two : String
worker_two = "w2"

heartbeat_iff_example :
    ((heartbeat 1 7 worker_two 30000000000 3000 after_claim).1 ≡ none) ↔ (worker_two ≡ "w1")
heartbeat_iff_example =
    heartbeat_iff unlocked 1 7 "w1" 2000 mail_table mail_claimed worker_two 30000000000 3000

complete_unowned_example :
    ((complete 1 7 4000 after_claim).1 ≡ none)
    × ((s : TaskRow)
        → Memᴰ s after_claim
        → has_ids 1 7 s ≡ false
        → Memᴰ s (complete 1 7 4000 after_claim).0)
complete_unowned_example = complete_unowned unlocked 1 7 "w1" 2000 mail_table mail_claimed 4000

abbrev recovered_task : Task
recovered_task = mark_processing "w2" 90000000000 (to_domain running_row)

claim_recovers_example :
    ((claim_for_processing unlocked 1 7 "w2" 90000000000 (running_row ∷ [])).1 ≡ ok recovered_task)
    × (recovered_task.id ≡ 7)
    × (recovered_task.status ≡ processing)
    × (recovered_task.locked_by ≡ "w2")
    × (recovered_task.attempts ≡ add_int64 running_row.attempts 1)
    × (recovered_task.visible_at
        ≡ add_time 90000000000 (mul_int64 running_row.visibility_timeout_ms millisecond))
unfolding claimed_row inserted_row new_task mark_processing to_domain add_time mul_int64 div_int64
claim_recovers_example =
    claim_recovers unlocked "w2" 90000000000 (running_row ∷ []) running_row (tt, tt)
      (Memᴰ.head refl) refl refl (omega arith) refl

mail-IsFresh : IsFresh mail
unfolding new_task
mail-IsFresh = record {
  unlocked = refl;
  silent = refl;
  open_end = refl;
  kept = refl;
  unsent = refl;
  clean = refl;
  timeout_ms = 0;
  timeout_fits = refl;
  timeout_bound = omega arith;
  visibility_ms = 30000;
  visibility_fits = refl;
  visibility_bound = omega arith;
}

to_domain-inserted_row_example : to_domain (inserted_row mail) ≡ mail
to_domain-inserted_row_example = to_domain-inserted_row mail mail-IsFresh

mail_named : mail.idempotency_key ≢ ""
unfolding new_task
mail_named e = cc

created : (create mail []).1 ≡ none
unfolding create affected
created = refl

create-find_by_idempotency_key_example :
    find_by_idempotency_key 1 "mail" "welcome" (create mail []).0 ≡ ok mail
unfolding new_task
create-find_by_idempotency_key_example =
    create-find_by_idempotency_key mail [] mail-IsFresh mail_named created

abbrev again : Task
again = new_task 8 5000 1 "mail" "{}" "welcome" "g" 3 30000000000

create_again_example :
    create again (create mail []).0 ≡ ((create mail []).0, some duplicate_idempotency_key)
unfolding new_task
create_again_example = create_again mail again [] mail_named refl refl refl created
