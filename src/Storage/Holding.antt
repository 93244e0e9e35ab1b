-- ===== src/Storage/Holding.antt =====
-- A task that is processing, beside statements that do not settle it: it stays so until its deadline.
use flowforge.Base.{
  ℕ, ◌≤◌, ◌≡◌, inl, String, add_time, map, inr, Bool, true, false, List, [], ◌∷◌, arith, All,
  All-mem, All-append, All-update, find, find-mem, update, Option-cases, Bool-cases, Time, ◌==◌,
  ◌&&◌, affected, refl, err, task_already_locked,
}
use flowforge.Task.{Task, processing, mark_processing}
use flowforge.Storage.{
  TaskRow, Table, conflicts, is_owned, is_running, is_requeueable, is_deletable, is_dispatchable,
  is_any, to_domain, claimable, claimed_row, claim_for_processing, has_ids, inserted_row, create,
  heartbeat, renewed_row, complete, fail, move_to_dead_letter, exec_update, reclaim_expired,
  reclaimable, reclaimed_row, expired, requeue, cancel, soft_delete, mark_dispatched,
  is_cancellable, cancelled_row, deleted_row, dispatched_row, requeued_row, completed_row,
  failed_row, buried_row,
}
use flowforge.Storage.Statement.{
  Statement, create_task, claim, beat, finish, fail_task, bury, reclaim, requeue_task, cancel_task,
  delete_task, dispatch, apply, run,
}
use flowforge.Storage.Rows.{mem-reclaimable, is_any-map}

module _ (org id : ℕ) (deadline : Time) where
  -- The row of the task is processing, up to the deadline at least.
  abbrev pub IsHolding : TaskRow → Type 0
  IsHolding r = has_ids org id r ≡ true → (r.status ≡ processing) × (deadline ≤ r.visible_at)

  -- Statements that do not settle the task, shorten its deadline or pass it, or insert its id.
  abbrev pub IsQuiet : Statement → Type 0
  IsQuiet (create_task t) = (t.id ≡ id) → ⊥
  IsQuiet (claim locked o i worker now) = (o ≡ org) → (i ≡ id) → now ≤ deadline
  IsQuiet (beat o i worker visibility_timeout now) =
      (o ≡ org) → (i ≡ id) → deadline ≤ add_time now visibility_timeout
  IsQuiet (finish o i now) = (o ≡ org) → (i ≡ id) → ⊥
  IsQuiet (fail_task o i message next_status visible_at now) = (o ≡ org) → (i ≡ id) → ⊥
  IsQuiet (bury o i message now) = (o ≡ org) → (i ≡ id) → ⊥
  IsQuiet (reclaim locked o queue now limit) = (o ≡ org) → now ≤ deadline
  IsQuiet _ = Unit

  holding_busy :
      (locked : ℕ → Bool) (now : Time) (r : TaskRow)
      → IsHolding r
      → now ≤ deadline
      → claimable locked org id now r ≡ false
  unfolding claimable
  holding_busy locked now r h l = ground arith

  -- an update that holds on to the task keeps every row's hold
  kept_by_update :
      (p : TaskRow → Bool) (f : TaskRow → TaskRow) (rows : Table)
      → ((r : TaskRow) → p r ≡ true → IsHolding r → IsHolding (f r))
      → All IsHolding rows
      → All IsHolding (update p f rows)
  kept_by_update p f rows k h = All-update IsHolding p f rows (λ r m q i. k r q i) h

  create-IsHolding :
      (t : Task) (rows : Table)
      → (t.id ≡ id → ⊥)
      → All IsHolding rows
      → All IsHolding (create t rows).0
  unfolding create inserted_row
  create-IsHolding t rows new h =
      elim (Bool-cases (affected (conflicts (inserted_row t)) rows == 0)) [
        | inl e ↦
            rw (e, create) (All-append IsHolding rows (inserted_row t ∷ []) h ((ground arith), tt))
        | inr e ↦ rw (e, create) h
      ]

  claim-IsHolding :
      (locked : ℕ → Bool) (o i : ℕ) (worker : String) (now : Time) (rows : Table)
      → ((o ≡ org) → (i ≡ id) → now ≤ deadline)
      → All IsHolding rows
      → All IsHolding (claim_for_processing locked o i worker now rows).0
  unfolding claim_for_processing
  claim-IsHolding locked o i worker now rows q h =
      elim (Option-cases (find (claimable locked o i now) rows)) [
        | inl e ↦ rw (e, claim_for_processing) h
        | inr (r, e) ↦
            let (m, c) = find-mem (claimable locked o i now) rows e in
            let held = All-mem IsHolding rows h m in
            rw (e, claim_for_processing)
              (kept_by_update (has_ids o (mark_processing worker now (to_domain r)).id)
                (claimed_row (mark_processing worker now (to_domain r)) now) rows
                (λ s p k. unfold claimable claimed_row mark_processing to_domain in ground arith) h)
      ]

  reclaim-IsHolding :
      (locked : ℕ → Bool) (o : ℕ) (queue : String) (now : Time) (limit : ℕ) (rows : Table)
      → ((o ≡ org) → now ≤ deadline)
      → All IsHolding rows
      → All IsHolding (reclaim_expired locked o queue now limit rows).0
  unfolding reclaim_expired
  reclaim-IsHolding locked o queue now limit rows q h =
      let found = reclaimable locked o queue now limit rows in
      let p = λ (r : TaskRow). r.org_id == o && is_any (map (λ (r : TaskRow). r.id) found) r.id in
      kept_by_update p (reclaimed_row now) rows
        (λ s p k.
          let (x, m, same) = is_any-map found s.id (ground arith) in
          let (there, late) = mem-reclaimable locked o queue now limit rows m in
          let held = All-mem IsHolding rows h there in unfold expired reclaimed_row in ground arith)
        h

  cancel-IsHolding :
      (o i : ℕ) (now : Time) (rows : Table)
      → All IsHolding rows
      → All IsHolding (cancel o i now rows).0
  unfolding cancel
  cancel-IsHolding o i now rows h = elim (Option-cases (find (is_cancellable o i) rows)) [
    | inl e ↦ rw (e, cancel) h
    | inr (r, e) ↦
        rw (e, cancel)
          (kept_by_update (is_cancellable o i) (cancelled_row now) rows
            (λ s p k. unfold cancelled_row in ground arith) h)
  ]

  apply-IsHolding :
      (st : Statement) (rows : Table)
      → IsQuiet st
      → All IsHolding rows
      → All IsHolding (apply st rows)
  unfolding apply heartbeat complete fail move_to_dead_letter requeue cancel soft_delete
      mark_dispatched exec_update
  apply-IsHolding (create_task t) rows q h = create-IsHolding t rows q h
  apply-IsHolding (claim locked o i worker now) rows q h =
      claim-IsHolding locked o i worker now rows q h
  apply-IsHolding (beat o i worker d now) rows q h =
      kept_by_update (is_owned o i worker) (renewed_row d now) rows
        (λ s p k. unfold renewed_row in ground arith) h
  apply-IsHolding (finish o i now) rows q h =
      kept_by_update (is_running o i) (completed_row now) rows
        (λ s p k. unfold completed_row in ground arith) h
  apply-IsHolding (fail_task o i message next v now) rows q h =
      kept_by_update (is_running o i) (failed_row message next v now) rows
        (λ s p k. unfold failed_row in ground arith) h
  apply-IsHolding (bury o i message now) rows q h =
      kept_by_update (is_running o i) (buried_row message now) rows
        (λ s p k. unfold buried_row in ground arith) h
  apply-IsHolding (reclaim locked o queue now limit) rows q h =
      reclaim-IsHolding locked o queue now limit rows q h
  apply-IsHolding (requeue_task o i now) rows q h =
      kept_by_update (is_requeueable o i) (requeued_row now) rows
        (λ s p k. unfold requeued_row in ground arith) h
  apply-IsHolding (cancel_task o i now) rows q h = cancel-IsHolding o i now rows h
  apply-IsHolding (delete_task o i now) rows q h =
      kept_by_update (is_deletable o i) (deleted_row now) rows
        (λ s p k. unfold deleted_row in ground arith) h
  apply-IsHolding (dispatch o i now) rows q h =
      kept_by_update (is_dispatchable o i) (dispatched_row now) rows
        (λ s p k. unfold dispatched_row in ground arith) h

  pub run-IsHolding :
      (history : List Statement) (rows : Table)
      → All IsQuiet history
      → All IsHolding rows
      → All IsHolding (run history rows)
  unfolding run
  run-IsHolding [] rows q h = h
  run-IsHolding (st ∷ history) rows q h =
      run-IsHolding history (apply st rows) q.1 (apply-IsHolding st rows q.0 h)

  -- no claim takes the task before the deadline
  pub claim_of_holding :
      (locked : ℕ → Bool) (worker : String) (now : Time) (rows : Table)
      → now ≤ deadline
      → All IsHolding rows
      → claim_for_processing locked org id worker now rows ≡ (rows, err task_already_locked)
  unfolding claim_for_processing
  claim_of_holding locked worker now rows l h =
      elim (Option-cases (find (claimable locked org id now) rows)) [
        | inl e ↦ rw (e, claim_for_processing) refl
        | inr (r, e) ↦
            let (m, c) = find-mem (claimable locked org id now) rows e in
            cc (c, holding_busy locked now r (All-mem IsHolding rows h m) l)
      ]
