-- ===== src/Service/Requests.antt =====
-- CreateTask: the row that a request leaves, and what a search by its key finds later.

use flowforge.Base.{
  ℕ, ◌≡◌, refl, inl, inr, ◌⊎◌, Bool, false, ◌&&◌, some, [], ◌∷◌, arith, find, update, Bool-cases,
  String, Time, str_eq, ◌==◌,
}
use flowforge.Task.{Task, new_task}
use flowforge.Storage.{
  TaskRow, Table, inserted_row, mark_dispatched, dispatched_row, is_dispatchable, is_key,
}
use flowforge.Service.{CreateTaskInput, requested_task, replay}

-- the rows that an idempotency key names
abbrev pub is_named : ℕ → String → String → TaskRow → Bool
is_named org queue key r = r.org_id == org && str_eq r.queue queue && is_key r.idempotency_key key

-- An update that leaves the key and the fingerprint of a row leaves what a search by key finds.
pub find-update :
    (p q : TaskRow → Bool) (f : TaskRow → TaskRow) (rows : Table) {r : TaskRow}
    → ((s : TaskRow) → p (f s) ≡ p s)
    → find p rows ≡ some r
    → (find p (update q f rows) ≡ some r) ⊎ (find p (update q f rows) ≡ some (f r))
unfolding find update
find-update p q f [] same h = cc
find-update p q f (x ∷ rows) {r = r} same h = elim (Bool-cases (p x)) [
  | inl e ↦
      let here : x ≡ r = ground arith in
      elim (Bool-cases (q x)) [
        | inl b ↦ rw (b, same x, e) (inr (rw here refl))
        | inr b ↦ rw (b, e) (inl (rw here refl))
      ]
  | inr e ↦
      let rest = find-update p q f rows {r = r} same (rw (e, find) at h) in
      elim (Bool-cases (q x)) [ inl b ↦ rw (b, same x, e) rest | inr b ↦ rw (b, e) rest ]
]

pub replay_old :
    (fingerprint : String) (x t : Task)
    → (replay fingerprint x).replayed ≡ false
    → (replay fingerprint x).task ≡ some t
    → ⊥
unfolding replay
replay_old fingerprint x t h k = ground arith

-- the two columns of a row that a replay looks at
pub record IsRowOf (id : ℕ) (fingerprint : String) (r : TaskRow) : Type 0 where
  pub named : r.id ≡ id
  pub signed : r.request_fingerprint ≡ fingerprint

-- what a requested task takes from its request
pub record IsOf (id : ℕ) (input : CreateTaskInput) (fingerprint : String) (u : Task) : Type 0 where
  pub number : u.id ≡ id
  pub org : u.org_id ≡ input.org_id
  pub queue : u.queue ≡ input.queue
  pub key : u.idempotency_key ≡ input.idempotency_key
  pub mark : u.request_fingerprint ≡ fingerprint

pub requested_task-IsOf :
    (id : ℕ) (created : Time) (input : CreateTaskInput) (fingerprint payload : String)
    → IsOf id input fingerprint (requested_task id created input fingerprint payload)
unfolding requested_task new_task
requested_task-IsOf id created input fingerprint payload = ground arith

pub inserted_row-IsRowOf :
    (id : ℕ) (input : CreateTaskInput) (fingerprint : String) (u : Task)
    → IsOf id input fingerprint u
    → IsRowOf id fingerprint (inserted_row u)
unfolding inserted_row
inserted_row-IsRowOf id input fingerprint u k = record { named = k.number; signed = k.mark }

pub dispatched_row-IsRowOf :
    (id now : ℕ) (fingerprint : String) (r : TaskRow)
    → IsRowOf id fingerprint r
    → IsRowOf id fingerprint (dispatched_row now r)
unfolding dispatched_row
dispatched_row-IsRowOf id now fingerprint r h = ground arith

pub find-mark_dispatched :
    (p : TaskRow → Bool) (org id now : ℕ) (rows : Table) (n : ℕ) (fingerprint : String)
    {r : TaskRow}
    → ((s : TaskRow) → p (dispatched_row now s) ≡ p s)
    → IsRowOf n fingerprint r
    → find p rows ≡ some r
    → (s : TaskRow) × (find p (mark_dispatched org id now rows).0 ≡ some s)
      × IsRowOf n fingerprint s
unfolding mark_dispatched
find-mark_dispatched p org id now rows n fingerprint {r = r} same k h =
    elim (find-update p (is_dispatchable org id) (dispatched_row now) rows same h) [
      | inl e ↦ (r, e, k)
      | inr e ↦ (dispatched_row now r, e, dispatched_row-IsRowOf n now fingerprint r k)
    ]
