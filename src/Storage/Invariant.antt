-- ===== src/Storage/Invariant.antt =====
-- What holds of the tasks table after any history of statements.
use flowforge.Base.{
  ◌≡◌, sym, subst, inl, inr, Bool, true, false, not, List, [], ◌∷◌, arith, All, All-append,
  All-Forall₂, Forall₂-map, is_none,
}
use flowforge.Task.{
  TaskStatus, completed, dead_letter, pending, is_processing_status, is_terminal_status,
  mark_processing,
}
use flowforge.Storage.{
  TaskRow, Table, to_domain, inserted_row, claimed_row, renewed_row, completed_row, failed_row,
  buried_row, reclaimed_row, requeued_row, cancelled_row, deleted_row, dispatched_row,
}
use flowforge.Storage.Rows.{IsKeyed, SameKeys, SameKeys-refl, IsKeyed-Forall₂, IsKeyed-snoc}
use flowforge.Storage.Statement.{Statement, apply, run}
use flowforge.Storage.Life.{
  Step, start, renew, succeed, retry, give_up, lose, replay, withdraw, hide, announce, Steps, move,
  insert, Evolves, IsAdmissible, apply-Evolves,
}

abbrev is_completed : TaskStatus → Bool
is_completed completed = true
is_completed _ = false

pub record IsConsistent (r : TaskRow) : Type 0 where
  pub owned : is_none r.locked_by ≡ not (is_processing_status r.status)
  pub beating : is_none r.last_heartbeat_at ≡ not (is_processing_status r.status)
  pub stamped : is_none r.completed_at ≡ not (is_completed r.status)
  pub hidden : is_none r.deleted_at ≡ false → is_terminal_status r.status ≡ true
  pub explained : r.status ≡ dead_letter → is_none r.last_error ≡ false

Step-IsConsistent : (r s : TaskRow) → Step r s → IsConsistent r → IsConsistent s
unfolding claimed_row mark_processing to_domain renewed_row completed_row failed_row buried_row
    reclaimed_row requeued_row cancelled_row deleted_row dispatched_row
Step-IsConsistent r s (start worker now d v p e) h = subst IsConsistent (sym e) (ground arith)
Step-IsConsistent r s (renew worker v now p l e) h = subst IsConsistent (sym e) (ground arith)
Step-IsConsistent r s (succeed now p e) h = subst IsConsistent (sym e) (ground arith)
Step-IsConsistent r s (retry m v now p e) h = subst IsConsistent (sym e) (ground arith)
Step-IsConsistent r s (give_up m now p e) h = subst IsConsistent (sym e) (ground arith)
Step-IsConsistent r s (lose now p v e) h = subst IsConsistent (sym e) (ground arith)
Step-IsConsistent r s (replay now p d e) h = subst IsConsistent (sym e) (ground arith)
Step-IsConsistent r s (withdraw now p d e) h = subst IsConsistent (sym e) (ground arith)
Step-IsConsistent r s (hide now p d e) h = subst IsConsistent (sym e) (ground arith)
Step-IsConsistent r s (announce now p e) h = subst IsConsistent (sym e) (ground arith)

pub Step-SameKeys : (r s : TaskRow) → Step r s → SameKeys r s
unfolding claimed_row renewed_row completed_row failed_row buried_row reclaimed_row requeued_row
    cancelled_row deleted_row dispatched_row
Step-SameKeys r s (start worker now d v p e) = subst (SameKeys r) (sym e) (ground arith)
Step-SameKeys r s (renew worker v now p l e) = subst (SameKeys r) (sym e) (ground arith)
Step-SameKeys r s (succeed now p e) = subst (SameKeys r) (sym e) (ground arith)
Step-SameKeys r s (retry m v now p e) = subst (SameKeys r) (sym e) (ground arith)
Step-SameKeys r s (give_up m now p e) = subst (SameKeys r) (sym e) (ground arith)
Step-SameKeys r s (lose now p v e) = subst (SameKeys r) (sym e) (ground arith)
Step-SameKeys r s (replay now p d e) = subst (SameKeys r) (sym e) (ground arith)
Step-SameKeys r s (withdraw now p d e) = subst (SameKeys r) (sym e) (ground arith)
Step-SameKeys r s (hide now p d e) = subst (SameKeys r) (sym e) (ground arith)
Step-SameKeys r s (announce now p e) = subst (SameKeys r) (sym e) (ground arith)

pub Steps-SameKeys : (r s : TaskRow) → Steps r s → SameKeys r s
Steps-SameKeys r s (inl e) = subst (SameKeys r) (sym e) (SameKeys-refl r)
Steps-SameKeys r s (inr st) = Step-SameKeys r s st

Steps-IsConsistent : (r s : TaskRow) → Steps r s → IsConsistent r → IsConsistent s
Steps-IsConsistent r s (inl e) h = subst IsConsistent (sym e) h
Steps-IsConsistent r s (inr st) h = Step-IsConsistent r s st h

inserted-IsConsistent : (t : _) → (inserted_row t).status ≡ pending → IsConsistent (inserted_row t)
unfolding inserted_row
inserted-IsConsistent t h = ground arith

pub record IsValid (rows : Table) : Type 0 where
  pub keyed : IsKeyed rows
  pub consistent : All IsConsistent rows

Evolves-IsValid : {rows rows' : Table} → Evolves rows rows' → IsValid rows → IsValid rows'
Evolves-IsValid (move w) h = record {
  keyed = IsKeyed-Forall₂ (Forall₂-map Steps-SameKeys w) h.keyed;
  consistent = All-Forall₂ IsConsistent Steps-IsConsistent w h.consistent;
}
Evolves-IsValid {rows = rows} (insert t new free e) h = subst IsValid (sym e) (record {
  keyed = IsKeyed-snoc (inserted_row t) rows free h.keyed;
  consistent =
      All-append IsConsistent rows (inserted_row t ∷ []) h.consistent
        (inserted-IsConsistent t (unfold inserted_row in new), tt);
})

-- After any history of admissible statements on a valid table, each in any organisation and at
-- any time, the unique indexes hold, and in every row: a worker and a heartbeat are recorded
-- exactly while the task is processing, a completion time exactly when it is completed, only
-- tasks in a terminal state are deleted, and a dead-lettered task has an error message.
pub run-IsValid :
    (history : List Statement) (rows : Table)
    → All IsAdmissible history
    → IsValid rows
    → IsValid (run history rows)
unfolding run
run-IsValid [] rows a h = h
run-IsValid (st ∷ history) rows a h =
    run-IsValid history (apply st rows) a.1 (Evolves-IsValid (apply-Evolves st rows a.0 h.keyed) h)
