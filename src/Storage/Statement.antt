-- ===== src/Storage/Statement.antt =====
-- The statements of postgres_storage.go that write the tasks table, as one type, and what each of
-- them makes of the table. A history is a list of statements in the order of their commits.
use flowforge.Base.{ℕ, String, Bool, List, [], ◌∷◌, Duration, Time}
use flowforge.Task.{TaskStatus, Task}
use flowforge.Storage.{
  Table, create, claim_for_processing, heartbeat, complete, fail, move_to_dead_letter,
  reclaim_expired, requeue, cancel, soft_delete, mark_dispatched,
}

pub data Statement : Type 0 where
  create_task : Task → Statement
  claim : (locked : ℕ → Bool) (org id : ℕ) (worker : String) (now : Time) → Statement
  beat : (org id : ℕ) (worker : String) (visibility_timeout : Duration) (now : Time) → Statement
  finish : (org id : ℕ) (now : Time) → Statement
  fail_task :
      (org id : ℕ) (message : String) (next_status : TaskStatus) (visible_at now : Time) → Statement
  bury : (org id : ℕ) (message : String) (now : Time) → Statement
  reclaim : (locked : ℕ → Bool) (org : ℕ) (queue : String) (now : Time) (limit : ℕ) → Statement
  requeue_task : (org id : ℕ) (now : Time) → Statement
  cancel_task : (org id : ℕ) (now : Time) → Statement
  delete_task : (org id : ℕ) (now : Time) → Statement
  dispatch : (org id : ℕ) (now : Time) → Statement

unfoldable pub apply : Statement → Table → Table
apply (create_task t) rows = (create t rows).0
apply (claim locked org id worker now) rows = (claim_for_processing locked org id worker now rows).0
apply (beat org id worker visibility_timeout now) rows =
    (heartbeat org id worker visibility_timeout now rows).0
apply (finish org id now) rows = (complete org id now rows).0
apply (fail_task org id message next_status visible_at now) rows =
    (fail org id message next_status visible_at now rows).0
apply (bury org id message now) rows = (move_to_dead_letter org id message now rows).0
apply (reclaim locked org queue now limit) rows =
    (reclaim_expired locked org queue now limit rows).0
apply (requeue_task org id now) rows = (requeue org id now rows).0
apply (cancel_task org id now) rows = (cancel org id now rows).0
apply (delete_task org id now) rows = (soft_delete org id now rows).0
apply (dispatch org id now) rows = (mark_dispatched org id now rows).0

unfoldable pub run : List Statement → Table → Table
unfolding apply
run [] rows = rows
run (s ∷ history) rows = run history (apply s rows)
