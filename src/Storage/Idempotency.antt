-- ===== src/Storage/Idempotency.antt =====
-- Create, FindByIdempotencyKey and the row that lies between them.
use mathlib.Core.List.Memᴰ
use flowforge.Base.{
  ℕ, ◌*◌, ◌<◌, ◌≡◌, ◌≢◌, refl, ap, inl, inr, Bool, true, false, ◌&&◌, String, none, some, [], ◌∷◌,
  ◌++◌, arith, All, find, affected, Bool-cases, Option-cases, ==_iff, ◌==◌, str_eq, eq_iff,
  duplicate_idempotency_key, ok, int64_half, mul_int64, div_int64, Memᴰ,
}
use flowforge.Task.{Task}
use flowforge.Storage.{
  TaskRow, Table, to_domain, inserted_row, conflicts, create, find_by_idempotency_key, is_key,
  null_if_empty, string_or_empty, millisecond,
}
use flowforge.Storage.Rows.{affected_none, affected_pos}

-- What NewTask and CreateTask leave unset, and what a bigint of milliseconds can hold.
pub record IsFresh (t : Task) : Type 0 where
  pub unlocked : t.locked_by ≡ ""
  pub silent : t.last_heartbeat_at ≡ none
  pub open_end : t.completed_at ≡ none
  pub kept : t.deleted_at ≡ none
  pub unsent : t.dispatched_at ≡ none
  pub clean : t.last_error ≡ ""
  pub timeout_ms : ℕ
  pub timeout_fits : t.task_timeout ≡ timeout_ms * millisecond
  pub timeout_bound : timeout_ms * millisecond < int64_half
  pub visibility_ms : ℕ
  pub visibility_fits : t.visibility_timeout ≡ visibility_ms * millisecond
  pub visibility_bound : visibility_ms * millisecond < int64_half

milliseconds_exact :
    (ms d : ℕ)
    → d ≡ ms * millisecond
    → ms * millisecond < int64_half
    → mul_int64 (div_int64 d millisecond) millisecond ≡ d
unfolding mul_int64 div_int64
milliseconds_exact ms d e h = ground arith

pub null_string : (s : String) → string_or_empty (null_if_empty s) ≡ s
null_string s = ground (arith, eq_iff s "")

-- A fresh task whose timeouts are whole milliseconds is read back from its row as it was written.
pub to_domain-inserted_row : (t : Task) → IsFresh t → to_domain (inserted_row t) ≡ t
unfolding to_domain inserted_row
to_domain-inserted_row t h = ground (
  arith,
  null_string t.idempotency_key,
  null_string t.trace_id,
  milliseconds_exact h.timeout_ms t.task_timeout,
  milliseconds_exact h.visibility_ms t.visibility_timeout,
)

find-snoc :
    (p : TaskRow → Bool) (rows : Table) (r : TaskRow)
    → All (λ s. p s ≡ false) rows
    → p r ≡ true
    → find p (rows ++ r ∷ []) ≡ some r
unfolding find
find-snoc p [] r h e = rw e
find-snoc p (s ∷ rows) r h e = rw h.0 (find-snoc p rows r h.1 e)

All-map_pred :
    (P Q : TaskRow → Type 0) (rows : Table) → ((r : TaskRow) → P r → Q r) → All P rows → All Q rows
All-map_pred P Q [] f h = tt
All-map_pred P Q (r ∷ rows) f h = (f r h.0, All-map_pred P Q rows f h.1)

free_key :
    (t : Task) (r : TaskRow)
    → t.idempotency_key ≢ ""
    → conflicts (inserted_row t) r ≡ false
    → (r.org_id == t.org_id && str_eq r.queue t.queue && is_key r.idempotency_key t.idempotency_key)
      ≡ false
unfolding conflicts inserted_row
free_key t r h e = elim (Option-cases r.idempotency_key) [
  | inl n ↦ ground arith
  | inr (k, n) ↦
      ground
        (arith, eq_iff t.idempotency_key "", eq_iff t.idempotency_key k, eq_iff k t.idempotency_key)
]

own_key :
    (t : Task)
    → t.idempotency_key ≢ ""
    → ((inserted_row t).org_id == t.org_id
        && str_eq (inserted_row t).queue t.queue
        && is_key (inserted_row t).idempotency_key t.idempotency_key)
      ≡ true
unfolding inserted_row
own_key t h = ground (
  arith,
  eq_iff t.idempotency_key "",
  eq_iff t.queue t.queue,
  eq_iff t.idempotency_key t.idempotency_key,
)

-- A successful insert met no conflict and added one row.
create-eq-none :
    (t : Task) (rows : Table)
    → (create t rows).1 ≡ none
    → All (λ r. conflicts (inserted_row t) r ≡ false) rows
      × ((create t rows).0 ≡ rows ++ inserted_row t ∷ [])
unfolding create
create-eq-none t rows e = elim (Bool-cases (affected (conflicts (inserted_row t)) rows == 0)) [
  | inl z ↦ (affected_none _ rows ((==_iff _ 0).0 z), rw z refl)
  | inr z ↦ cc (rw z at e)
]

-- the row of a created task is the one that its key finds
pub find-create :
    (t : Task) (rows : Table)
    → t.idempotency_key ≢ ""
    → (create t rows).1 ≡ none
    → find
        (λ r.
          r.org_id == t.org_id
          && str_eq r.queue t.queue
          && is_key r.idempotency_key t.idempotency_key)
        (create t rows).0
      ≡ some (inserted_row t)
find-create t rows h e =
    let (free, added) = create-eq-none t rows e in
    rw added (
      find-snoc _ rows (inserted_row t)
        (All-map_pred _
          (λ r.
            (r.org_id == t.org_id
              && str_eq r.queue t.queue
              && is_key r.idempotency_key t.idempotency_key)
            ≡ false)
          rows (λ r. free_key t r h) free)
        (own_key t h))

-- A fresh task with an idempotency key that Create accepted is found by that key, as it was
-- handed to Create.
pub create-find_by_idempotency_key :
    (t : Task) (rows : Table)
    → IsFresh t
    → t.idempotency_key ≢ ""
    → (create t rows).1 ≡ none
    → find_by_idempotency_key t.org_id t.queue t.idempotency_key (create t rows).0 ≡ ok t
unfolding find_by_idempotency_key
create-find_by_idempotency_key t rows fresh h e =
    rw (find-create t rows h e) (ap (λ (x : Task). ok x) (to_domain-inserted_row t fresh))

same_key_conflicts :
    (t u : Task)
    → t.idempotency_key ≢ ""
    → u.org_id ≡ t.org_id
    → u.queue ≡ t.queue
    → u.idempotency_key ≡ t.idempotency_key
    → conflicts (inserted_row u) (inserted_row t) ≡ true
unfolding conflicts inserted_row
same_key_conflicts t u h a b c = ground (
  arith,
  eq_iff t.idempotency_key "",
  eq_iff u.idempotency_key "",
  eq_iff t.queue u.queue,
  eq_iff u.idempotency_key t.idempotency_key,
)

create-duplicate :
    (u : Task) (rows : Table) {r : TaskRow}
    → Memᴰ r rows
    → conflicts (inserted_row u) r ≡ true
    → create u rows ≡ (rows, some duplicate_idempotency_key)
unfolding create
create-duplicate u rows m h = rw (affected_pos (conflicts (inserted_row u)) rows m h) refl

-- A second task with the organisation, queue and idempotency key (which is not empty) of a
-- created one is refused, and changes nothing.
pub create_again :
    (t u : Task) (rows : Table)
    → t.idempotency_key ≢ ""
    → u.org_id ≡ t.org_id
    → u.queue ≡ t.queue
    → u.idempotency_key ≡ t.idempotency_key
    → (create t rows).1 ≡ none
    → create u (create t rows).0 ≡ ((create t rows).0, some duplicate_idempotency_key)
create_again t u rows h a b c e =
    let (free, added) = create-eq-none t rows e in
    create-duplicate u (create t rows).0 (rw added (Memᴰ.append_right rows (Memᴰ.head refl)))
      (same_key_conflicts t u h a b c)
