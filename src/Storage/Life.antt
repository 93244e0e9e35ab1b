-- ===== src/Storage/Life.antt =====
-- The life of a task as a step relation on its row, and the refinement: what each statement of
-- postgres_storage.go does to the rows of the table is steps of that relation.
use mathlib.Core.List.{Forall₂}
use flowforge.Base.{
  ℕ, ◌≤◌, ◌<◌, ◌≡◌, refl, subst, ◌⊎◌, inl, inr, Bool, true, false, String, none, some, [], ◌∷◌,
  ◌++◌, Memᴰ, arith, Duration, Time, All, find, find-mem, update, update-Forall₂, affected,
  Bool-cases, Option-cases, ==_iff, ◌==◌,
}
use flowforge.Task.{pending, processing, is_terminal_status, Task, mark_processing}
use flowforge.Storage.{
  TaskRow, Table, to_domain, inserted_row, conflicts, claimable, claimed_row, renewed_row,
  completed_row, failed_row, buried_row, reclaimed_row, requeued_row, cancelled_row, deleted_row,
  dispatched_row, is_requeueable_status, create, claim_for_processing, heartbeat, complete, fail,
  move_to_dead_letter, reclaim_expired, requeue, cancel, soft_delete, mark_dispatched, expired,
  is_owned, is_running, is_requeueable, is_cancellable, is_deletable, is_dispatchable, has_ids,
}
use flowforge.Storage.Rows.{affected_none, IsKeyed, eq_of_id, mem-reclaimable, is_any-map}
use flowforge.Storage.Statement.{
  Statement, create_task, claim, beat, finish, fail_task, bury, reclaim, requeue_task, cancel_task,
  delete_task, dispatch, apply,
}

-- The right of each step to happen, and the row that it leaves.
pub data Step (r s : TaskRow) : Type 0 where
  start :
      (worker : String) (now : Time)
      → r.deleted_at ≡ none
      → r.visible_at ≤ now
      → (r.status ≡ pending) ⊎ (r.status ≡ processing) × (r.visible_at < now)
      → s ≡ claimed_row (mark_processing worker now (to_domain r)) now r
      → Step r s
  renew :
      (worker : String) (visibility_timeout : Duration) (now : Time)
      → r.status ≡ processing
      → r.locked_by ≡ some worker
      → s ≡ renewed_row visibility_timeout now r
      → Step r s
  succeed : (now : Time) → r.status ≡ processing → s ≡ completed_row now r → Step r s
  retry :
      (message : String) (visible_at now : Time)
      → r.status ≡ processing
      → s ≡ failed_row message pending visible_at now r
      → Step r s
  give_up :
      (message : String) (now : Time)
      → r.status ≡ processing
      → s ≡ buried_row message now r
      → Step r s
  lose :
      (now : Time) → r.status ≡ processing → r.visible_at < now → s ≡ reclaimed_row now r → Step r s
  replay :
      (now : Time)
      → is_requeueable_status r.status ≡ true
      → r.deleted_at ≡ none
      → s ≡ requeued_row now r
      → Step r s
  withdraw :
      (now : Time) → r.status ≡ pending → r.deleted_at ≡ none → s ≡ cancelled_row now r → Step r s
  hide :
      (now : Time)
      → is_terminal_status r.status ≡ true
      → r.deleted_at ≡ none
      → s ≡ deleted_row now r
      → Step r s
  announce : (now : Time) → r.status ≡ pending → s ≡ dispatched_row now r → Step r s

abbrev pub Steps : TaskRow → TaskRow → Type 0
Steps r s = (s ≡ r) ⊎ Step r s

-- What a statement may make of a table: a step or nothing of each row, or a row more whose keys
-- are free.
pub data Evolves (rows rows' : Table) : Type 0 where
  move : Forall₂ Steps rows rows' → Evolves rows rows'
  insert :
      (t : Task)
      → t.status ≡ pending
      → All (λ r. conflicts (inserted_row t) r ≡ false) rows
      → rows' ≡ rows ++ inserted_row t ∷ []
      → Evolves rows rows'

-- The callers create tasks by NewTask, and fail them back to pending.
abbrev pub IsAdmissible : Statement → Type 0
IsAdmissible (create_task t) = t.status ≡ pending
IsAdmissible (fail_task org id message next_status visible_at now) = next_status ≡ pending
IsAdmissible _ = Unit

Forall₂-Steps_refl : (rows : Table) → Forall₂ Steps rows rows
Forall₂-Steps_refl [] = Forall₂.nil
Forall₂-Steps_refl (r ∷ rows) = Forall₂.cons (inl refl) (Forall₂-Steps_refl rows)

create-Evolves : (t : Task) (rows : Table) → t.status ≡ pending → Evolves rows (create t rows).0
unfolding create
create-Evolves t rows h = elim (Bool-cases (affected (conflicts (inserted_row t)) rows == 0)) [
  | inl e ↦
      rw e (insert t h (affected_none (conflicts (inserted_row t)) rows ((==_iff _ 0).0 e)) refl)
  | inr e ↦ rw e (move (Forall₂-Steps_refl rows))
]

claim-Step :
    (locked : ℕ → Bool) (org id : ℕ) (worker : String) (now : Time) (r : TaskRow)
    → claimable locked org id now r ≡ true
    → Step r (claimed_row (mark_processing worker now (to_domain r)) now r)
unfolding claimable
claim-Step locked org id worker now r h =
    start worker now (ground arith) (ground arith) (ground arith) refl

claim_names :
    (org : ℕ) (worker : String) (now : Time) (r s : TaskRow)
    → has_ids org (mark_processing worker now (to_domain r)).id s ≡ true
    → r.id ≡ s.id
unfolding mark_processing to_domain
claim_names org worker now r s h = ground arith

claim-Evolves :
    (locked : ℕ → Bool) (org id : ℕ) (worker : String) (now : Time) (rows : Table)
    → IsKeyed rows
    → Evolves rows (claim_for_processing locked org id worker now rows).0
unfolding claim_for_processing
claim-Evolves locked org id worker now rows k =
    elim (Option-cases (find (claimable locked org id now) rows)) [
      | inl e ↦ rw (e, claim_for_processing) (move (Forall₂-Steps_refl rows))
      | inr (r, e) ↦
          let (m, q) = find-mem (claimable locked org id now) rows e in
          let set = claimed_row (mark_processing worker now (to_domain r)) now in
          let only =
            λ (s : TaskRow) (n : Memᴰ s rows)
                (p : has_ids org (mark_processing worker now (to_domain r)).id s ≡ true).
              subst (λ x. Step x (set x)) (eq_of_id rows k m n (claim_names org worker now r s p))
                (claim-Step locked org id worker now r q) in
          rw (e, claim_for_processing) (move (update-Forall₂ Step _ set rows only))
    ]

-- a statement whose update makes one step of each row that it selects
update-Evolves :
    (p : TaskRow → Bool) (f : TaskRow → TaskRow) (rows : Table)
    → ((r : TaskRow) → p r ≡ true → Step r (f r))
    → Evolves rows (update p f rows)
update-Evolves p f rows h = move (update-Forall₂ Step p f rows (λ r m. h r))

owned-renew :
    (org id : ℕ) (worker : String) (d now : ℕ) (r : TaskRow)
    → is_owned org id worker r ≡ true
    → Step r (renewed_row d now r)
owned-renew org id worker d now r h = elim (Option-cases r.locked_by) [
  | inl e ↦ absurd (ground arith)
  | inr (w, e) ↦ renew w d now (ground arith) e refl
]

expired-lose :
    (locked : ℕ → Bool) (org : ℕ) (queue : String) (now : ℕ) (r : TaskRow)
    → expired locked org queue now r ≡ true
    → Step r (reclaimed_row now r)
unfolding expired
expired-lose locked org queue now r h = lose now (ground arith) (ground arith) refl

cancel-Evolves : (org id : ℕ) (now : Time) (rows : Table) → Evolves rows (cancel org id now rows).0
unfolding cancel
cancel-Evolves org id now rows = elim (Option-cases (find (is_cancellable org id) rows)) [
  | inl e ↦ rw (e, cancel) (move (Forall₂-Steps_refl rows))
  | inr (r, e) ↦
      rw (e, cancel)
        (update-Evolves (is_cancellable org id) (cancelled_row now) rows
          (λ s h. withdraw now (ground arith) (ground arith) refl))
]

reclaim-Evolves :
    (locked : ℕ → Bool) (org : ℕ) (queue : String) (now limit : ℕ) (rows : Table)
    → IsKeyed rows
    → Evolves rows (reclaim_expired locked org queue now limit rows).0
unfolding reclaim_expired
reclaim-Evolves locked org queue now limit rows k = move (
    update-Forall₂ Step _ (reclaimed_row now) rows (λ s n p.
      let (r, m, e) = is_any-map _ s.id (ground arith) in
      let (there, late) = mem-reclaimable locked org queue now limit rows m in
      subst (λ x. Step x (reclaimed_row now x)) (eq_of_id rows k there n e)
        (expired-lose locked org queue now r late)))

-- Every admissible statement moves a keyed table by steps of the tasks' life.
pub apply-Evolves :
    (st : Statement) (rows : Table) → IsAdmissible st → IsKeyed rows → Evolves rows (apply st rows)
unfolding apply heartbeat complete fail move_to_dead_letter requeue soft_delete mark_dispatched
apply-Evolves (create_task t) rows a k = create-Evolves t rows a
apply-Evolves (claim locked org id worker now) rows a k =
    claim-Evolves locked org id worker now rows k
apply-Evolves (beat org id worker d now) rows a k =
    update-Evolves _ _ rows (owned-renew org id worker d now)
apply-Evolves (finish org id now) rows a k =
    update-Evolves (is_running org id) _ rows (λ r h. succeed now (ground arith) refl)
apply-Evolves (fail_task org id message next v now) rows a k =
    update-Evolves (is_running org id) _ rows
      (λ r h. retry message v now (ground arith) (rw a refl))
apply-Evolves (bury org id message now) rows a k =
    update-Evolves (is_running org id) _ rows (λ r h. give_up message now (ground arith) refl)
apply-Evolves (reclaim locked org queue now limit) rows a k =
    reclaim-Evolves locked org queue now limit rows k
apply-Evolves (requeue_task org id now) rows a k =
    update-Evolves (is_requeueable org id) _ rows
      (λ r h. replay now (ground arith) (ground arith) refl)
apply-Evolves (cancel_task org id now) rows a k = cancel-Evolves org id now rows
apply-Evolves (delete_task org id now) rows a k =
    update-Evolves (is_deletable org id) _ rows (λ r h. hide now (ground arith) (ground arith) refl)
apply-Evolves (dispatch org id now) rows a k =
    update-Evolves (is_dispatchable org id) _ rows (λ r h. announce now (ground arith) refl)
