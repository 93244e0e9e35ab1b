-- ===== src/Storage/Lifecycle.antt =====
-- What a history of statements can no longer change.
use mathlib.Core.List.{Forall₂}
use mathlib.Core.List.Memᴰ
use flowforge.Base.{◌≡◌, refl, sym, subst, inl, inr, List, [], ◌∷◌, arith, All, Memᴰ}
use flowforge.Task.{completed}
use flowforge.Storage.{TaskRow, Table, deleted_row, inserted_row}
use flowforge.Storage.Statement.{Statement, apply, run}
use flowforge.Storage.Life.{
  Step, start, renew, succeed, retry, give_up, lose, replay, withdraw, hide, announce, Steps, move,
  insert, Evolves, IsAdmissible, apply-Evolves,
}
use flowforge.Storage.Invariant.{IsValid, run-IsValid}

-- the row `s` still records the success that `r` records
pub record StaysDone (r s : TaskRow) : Type 0 where
  pub id : s.id ≡ r.id
  pub org : s.org_id ≡ r.org_id
  pub done : s.status ≡ completed
  pub stamp : s.completed_at ≡ r.completed_at
  pub tries : s.attempts ≡ r.attempts
  pub body : s.payload ≡ r.payload

Step-StaysDone : (r s : TaskRow) → Step r s → r.status ≡ completed → StaysDone r s
unfolding deleted_row
Step-StaysDone r s (start worker now d v (inl p) e) h = cc
Step-StaysDone r s (start worker now d v (inr p) e) h = cc (p.0)
Step-StaysDone r s (renew worker v now p l e) h = cc
Step-StaysDone r s (succeed now p e) h = cc
Step-StaysDone r s (retry m v now p e) h = cc
Step-StaysDone r s (give_up m now p e) h = cc
Step-StaysDone r s (lose now p v e) h = cc
Step-StaysDone r s (replay now p d e) h = ground arith
Step-StaysDone r s (withdraw now p d e) h = cc
Step-StaysDone r s (hide now p d e) h = subst (StaysDone r) (sym e) (ground arith)
Step-StaysDone r s (announce now p e) h = cc

Steps-StaysDone : (r s : TaskRow) → Steps r s → r.status ≡ completed → StaysDone r s
Steps-StaysDone r s (inl e) h = subst (StaysDone r) (sym e) (ground arith)
Steps-StaysDone r s (inr st) h = Step-StaysDone r s st h

Forall₂-mem :
    {r : TaskRow} {rows rows' : Table}
    → Forall₂ Steps rows rows'
    → Memᴰ r rows
    → (s : TaskRow) × Memᴰ s rows' × Steps r s
Forall₂-mem Forall₂.nil m = elim m [ ]
Forall₂-mem (Forall₂.cons {b = y} q w) (Memᴰ.head e) =
    (y, Memᴰ.head refl, subst (λ x. Steps x y) (sym e) q)
Forall₂-mem (Forall₂.cons q w) (Memᴰ.tail m) =
    let (s, n, k) = Forall₂-mem w m in (s, Memᴰ.tail n, k)

StaysDone-Evolves :
    {r : TaskRow} {rows rows' : Table}
    → Evolves rows rows'
    → Memᴰ r rows
    → r.status ≡ completed
    → (s : TaskRow) × Memᴰ s rows' × StaysDone r s
StaysDone-Evolves {r = r} (move w) m h =
    let (s, n, k) = Forall₂-mem w m in (s, n, Steps-StaysDone r s k h)
StaysDone-Evolves {r = r} (insert t new free e) m h =
    (r, subst (Memᴰ r) (sym e) (Memᴰ.append_left (inserted_row t ∷ []) m), ground arith)

-- A completed task of a valid table stays completed, with its completion time, attempts and
-- payload, whatever admissible statements follow.
pub run-StaysDone :
    (history : List Statement) (rows : Table) (r : TaskRow)
    → All IsAdmissible history
    → IsValid rows
    → Memᴰ r rows
    → r.status ≡ completed
    → (s : TaskRow) × Memᴰ s (run history rows) × StaysDone r s
unfolding run
run-StaysDone [] rows r a v m h = (r, m, ground arith)
run-StaysDone (st ∷ history) rows r a v m h =
    let (s, n, k) = StaysDone-Evolves (apply-Evolves st rows a.0 v.keyed) m h in
    let (s', n', k') =
      run-StaysDone history (apply st rows) s a.1 (run-IsValid (st ∷ []) rows (a.0, tt) v) n
        k.done in
    (s', n', ground arith)
