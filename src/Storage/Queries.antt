-- ===== src/Storage/Queries.antt =====
-- ListUndispatchedPending of postgres_storage.go: the pending tasks that no broker call announced.
use flowforge.Base.{
  ℕ, String, Bool, ◌&&◌, List, [], ◌∷◌, map, Time, leb, ◌==◌, if◌then◌else◌, str_eq, is_none, take,
  select,
}
use flowforge.Task.{Task, is_pending_status}
use flowforge.Storage.{TaskRow, Table, to_domain}

unfoldable pub is_undispatched : ℕ → String → Time → TaskRow → Bool
is_undispatched org queue now r =
    r.org_id == org
    && str_eq r.queue queue
    && is_pending_status r.status
    && is_none r.dispatched_at
    && leb r.visible_at now
    && is_none r.deleted_at

-- ORDER BY created_at ASC
unfoldable pub insert_by_created_at : TaskRow → Table → Table
insert_by_created_at r [] = r ∷ []
insert_by_created_at r (s ∷ rows) =
    if leb r.created_at s.created_at then r ∷ s ∷ rows else s ∷ insert_by_created_at r rows

unfoldable pub order_by_created_at : Table → Table
unfolding insert_by_created_at
order_by_created_at [] = []
order_by_created_at (r ∷ rows) = insert_by_created_at r (order_by_created_at rows)

-- `now` is the database's.
unfoldable pub list_undispatched_pending : ℕ → String → (limit : ℕ) → Time → Table → List Task
unfolding is_undispatched order_by_created_at
list_undispatched_pending org queue limit now rows =
    map to_domain (take limit (order_by_created_at (select (is_undispatched org queue now) rows)))
