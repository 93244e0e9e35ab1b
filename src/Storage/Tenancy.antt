-- ===== src/Storage/Tenancy.antt =====
-- Tenants do not reach each other's tasks.
use flowforge.Base.{
  ℕ, ◌≡◌, ◌≢◌, refl, inl, inr, Bool, true, false, [], ◌∷◌, ◌++◌, arith, find, select, update,
  affected, Bool-cases, Option-cases, ◌==◌, Time, String,
}
use flowforge.Task.{Task, mark_processing}
use flowforge.Storage.{
  TaskRow, Table, to_domain, inserted_row, conflicts, claimable, claimed_row, renewed_row,
  completed_row, failed_row, buried_row, reclaimed_row, requeued_row, cancelled_row, deleted_row,
  dispatched_row, create, claim_for_processing, heartbeat, complete, fail, move_to_dead_letter,
  reclaim_expired, requeue, cancel, soft_delete, mark_dispatched, is_owned, is_running,
  is_requeueable, is_cancellable, is_deletable, is_dispatchable, has_ids,
}
use flowforge.Storage.Statement.{
  Statement, create_task, claim, beat, finish, fail_task, bury, reclaim, requeue_task, cancel_task,
  delete_task, dispatch, apply,
}

-- the organisation on whose behalf a statement runs
abbrev pub tenant : Statement → ℕ
tenant (create_task t) = t.org_id
tenant (claim locked org id worker now) = org
tenant (beat org id worker visibility_timeout now) = org
tenant (finish org id now) = org
tenant (fail_task org id message next_status visible_at now) = org
tenant (bury org id message now) = org
tenant (reclaim locked org queue now limit) = org
tenant (requeue_task org id now) = org
tenant (cancel_task org id now) = org
tenant (delete_task org id now) = org
tenant (dispatch org id now) = org

abbrev pub is_of : ℕ → TaskRow → Bool
is_of org r = r.org_id == org

-- the tasks of one tenant, in the order of the table
abbrev pub tasks_of : ℕ → Table → Table
tasks_of org = select (is_of org)

module _ (org : ℕ) (p : TaskRow → Bool) (f : TaskRow → TaskRow)
    (foreign : (r : TaskRow) → p r ≡ true → (is_of org r ≡ false) × (is_of org (f r) ≡ false)) where
  tasks_of-update : (rows : Table) → tasks_of org (update p f rows) ≡ tasks_of org rows
  unfolding select update
  tasks_of-update [] = refl
  tasks_of-update (r ∷ rows) = elim (Bool-cases (p r)) [
    | inl e ↦ rw (e, (foreign r e).0, (foreign r e).1) (tasks_of-update rows)
    | inr e ↦ rw (e, tasks_of-update rows) refl
  ]

tasks_of-snoc :
    (org : ℕ) (rows : Table) (r : TaskRow)
    → is_of org r ≡ false
    → tasks_of org (rows ++ r ∷ []) ≡ tasks_of org rows
unfolding select
tasks_of-snoc org [] r h = rw h
tasks_of-snoc org (s ∷ rows) r h = rw (tasks_of-snoc org rows r h) refl

module _ (other org : ℕ) (apart : other ≢ org) where
  tasks_of-claim :
      (locked : ℕ → Bool) (id : ℕ) (worker : String) (now : Time) (rows : Table)
      → tasks_of other (claim_for_processing locked org id worker now rows).0 ≡ tasks_of other rows
  unfolding claim_for_processing
  tasks_of-claim locked id worker now rows =
      elim (Option-cases (find (claimable locked org id now) rows)) [
        | inl e ↦ rw (e, claim_for_processing) refl
        | inr (r, e) ↦
            rw (e, claim_for_processing)
              (tasks_of-update other (has_ids org (mark_processing worker now (to_domain r)).id)
                (claimed_row (mark_processing worker now (to_domain r)) now)
                (λ s h. unfold claimed_row in (ground arith, ground arith)) rows)
      ]

  tasks_of-cancel :
      (id : ℕ) (now : Time) (rows : Table)
      → tasks_of other (cancel org id now rows).0 ≡ tasks_of other rows
  unfolding cancel
  tasks_of-cancel id now rows = elim (Option-cases (find (is_cancellable org id) rows)) [
    | inl e ↦ rw (e, cancel) refl
    | inr (r, e) ↦
        rw (e, cancel)
          (tasks_of-update other (is_cancellable org id) (cancelled_row now)
            (λ s h. unfold cancelled_row in (ground arith, ground arith)) rows)
  ]

tasks_of-create :
    (other : ℕ) (t : Task) (rows : Table)
    → other ≢ t.org_id
    → tasks_of other (create t rows).0 ≡ tasks_of other rows
unfolding create inserted_row
tasks_of-create other t rows h =
    elim (Bool-cases (affected (conflicts (inserted_row t)) rows == 0)) [
      | inl e ↦ rw e (tasks_of-snoc other rows (inserted_row t) (ground arith))
      | inr e ↦ rw e refl
    ]

-- A statement that runs for one organisation leaves the tasks of every other organisation, and
-- their order, as they were.
pub apply_isolated :
    (st : Statement) (other : ℕ) (rows : Table)
    → other ≢ tenant st
    → tasks_of other (apply st rows) ≡ tasks_of other rows
unfolding apply heartbeat complete fail move_to_dead_letter reclaim_expired requeue soft_delete
    mark_dispatched renewed_row completed_row failed_row buried_row reclaimed_row requeued_row
    deleted_row dispatched_row
apply_isolated (create_task t) other rows h = tasks_of-create other t rows h
apply_isolated (claim locked org id worker now) other rows h =
    tasks_of-claim other org h locked id worker now rows
apply_isolated (beat org id worker v now) other rows h =
    tasks_of-update other (is_owned org id worker) _ (λ r p. (ground arith, ground arith)) rows
apply_isolated (finish org id now) other rows h =
    tasks_of-update other (is_running org id) _ (λ r p. (ground arith, ground arith)) rows
apply_isolated (fail_task org id message next v now) other rows h =
    tasks_of-update other (is_running org id) _ (λ r p. (ground arith, ground arith)) rows
apply_isolated (bury org id message now) other rows h =
    tasks_of-update other (is_running org id) _ (λ r p. (ground arith, ground arith)) rows
apply_isolated (reclaim locked org queue now limit) other rows h =
    tasks_of-update other _ (reclaimed_row now) (λ r p. (ground arith, ground arith)) rows
apply_isolated (requeue_task org id now) other rows h =
    tasks_of-update other (is_requeueable org id) _ (λ r p. (ground arith, ground arith)) rows
apply_isolated (cancel_task org id now) other rows h = tasks_of-cancel other org h id now rows
apply_isolated (delete_task org id now) other rows h =
    tasks_of-update other (is_deletable org id) _ (λ r p. (ground arith, ground arith)) rows
apply_isolated (dispatch org id now) other rows h =
    tasks_of-update other (is_dispatchable org id) _ (λ r p. (ground arith, ground arith)) rows
