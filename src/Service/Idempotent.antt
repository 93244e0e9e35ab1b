-- ===== src/Service/Idempotent.antt =====
-- CreateTask over the tasks table: a request that is sent again finds the task that it created.

use flowforge.Base.{
  ℕ, ◌≡◌, ◌≢◌, refl, sym, ◌∙◌, subst, inl, inr, ◌⊎◌, Bool, true, false, none, some, arith, find,
  Bool-cases, Option-cases, Result-cases, Error, String, eq_iff,
}
use flowforge.Task.{Task}
use flowforge.Storage.{
  TaskRow, Table, to_domain, inserted_row, create, find_by_idempotency_key, mark_dispatched,
  dispatched_row,
}
use flowforge.Storage.Idempotency.{find-create}
use flowforge.Ports.{TaskBroker, Observers}
use flowforge.Engine.Deployed.{World, postgres, beside_broker, beside_observers}
use flowforge.Service.{
  CreateTaskInput, Fingerprints, request_fingerprint, requested_task, Clock, Creation, replay,
  create_task, create_requested, store_task, announce_task, recover_create, dispatch_task,
  is_not_found, is_duplicate,
}
use flowforge.Service.Requests.{
  is_named, replay_old, IsRowOf, IsOf, requested_task-IsOf, inserted_row-IsRowOf,
  find-mark_dispatched,
}

module _ {B : Type 0} (locked : ℕ → Bool) (broker : TaskBroker B) (observers : Observers B)
    (lib : Fingerprints) (input : CreateTaskInput) where
  abbrev request : ℕ → Clock → World B → World B × Creation
  request id clock w =
      create_task (postgres locked) (beside_broker broker) (beside_observers observers) lib id clock
        input w

  abbrev announced : Task → Clock → World B → World B × Creation
  announced =
      announce_task (postgres locked) (beside_broker broker) (beside_observers observers) lib

  abbrev Holds : World B → TaskRow → Type 0
  Holds w r = find (is_named input.org_id input.queue input.idempotency_key) w.table ≡ some r

  announced-task : (u : Task) (clock : Clock) (w : World B) → (announced u clock w).1.task ≡ some u
  unfolding announce_task
  announced-task u clock w = ground arith

  announced-table :
      (u : Task) (clock : Clock) (w : World B)
      → ((announced u clock w).0.table ≡ w.table)
        ⊎ ((announced u clock w).0.table ≡ (mark_dispatched u.org_id u.id clock.now w.table).0)
  unfolding announce_task dispatch_task
  announced-table u clock w = ground arith

  abbrev requested : ℕ → Clock → String → String → World B → World B × Creation
  requested id clock fingerprint payload w =
      create_requested (postgres locked) (beside_broker broker) (beside_observers observers) lib id
        clock input fingerprint payload w

  request-some :
      (id : ℕ) (clock : Clock) (w : World B) (fingerprint payload : String)
      → request_fingerprint lib input ≡ some (fingerprint, payload)
      → request id clock w ≡ requested id clock fingerprint payload w
  unfolding create_task
  request-some id clock w fingerprint payload p = rw (p, create_task) refl

  request-none :
      (id : ℕ) (clock : Clock) (w : World B)
      → request_fingerprint lib input ≡ none
      → (request id clock w).1.task ≡ none
  unfolding create_task
  request-none id clock w p = rw (p, create_task) refl

  -- the answer to a request whose key is taken by the same request
  requested_found :
      (id : ℕ) (clock : Clock) (w : World B) (fingerprint payload : String) (r : TaskRow)
      → Holds w r
      → r.request_fingerprint ≡ fingerprint
      → requested id clock fingerprint payload w
        ≡ (w, record { task = some (to_domain r); replayed = true; error = none })
  unfolding create_requested find_by_idempotency_key replay to_domain
  requested_found id clock w fingerprint payload r h e =
      rw (h, create_requested) (ground (arith, e, eq_iff r.request_fingerprint fingerprint))

  abbrev stored : CreateTaskInput → String → Task → Clock → World B → World B × Creation
  stored = store_task (postgres locked) (beside_broker broker) (beside_observers observers) lib

  -- A request that made a task announced the task that it had stored.
  record Made (clock : Clock) (w : World B) (u : Task) (out : World B × Creation) : Type 0 where
    clean : (create u w.table).1 ≡ none
    announced_it : out ≡ announced u clock (record { table = (create u w.table).0; rest = w.rest })

  abbrev recovered : String → Error → World B → World B × Creation
  recovered =
      recover_create (postgres locked) (beside_broker broker) (beside_observers observers) lib input

  recovered_old :
      (fingerprint : String) (x : Error) (w : World B) (t : Task)
      → (recovered fingerprint x w).1.replayed ≡ false
      → (recovered fingerprint x w).1.task ≡ some t
      → ⊥
  unfolding recover_create
  recovered_old fingerprint x w t h k =
      let found = find_by_idempotency_key input.org_id input.queue input.idempotency_key w.table in
      elim (Bool-cases (is_duplicate x)) [
        | inr e ↦ cc (rw (e, recover_create) at k)
        | inl e ↦ elim (Result-cases found) [
          | inl (y, q) ↦ cc (rw (e, q, recover_create) at k)
          | inr (y, q) ↦
              replay_old fingerprint y t (rw (e, q, recover_create) at h)
                (rw (e, q, recover_create) at k)
        ]
      ]

  stored-Made :
      (fingerprint : String) (u : Task) (clock : Clock) (w : World B) (t : Task)
      → (stored input fingerprint u clock w).1.replayed ≡ false
      → (stored input fingerprint u clock w).1.task ≡ some t
      → Made clock w u (stored input fingerprint u clock w)
  unfolding store_task
  stored-Made fingerprint u clock w t h k = elim (Option-cases (create u w.table).1) [
    | inl e ↦ record { clean = e; announced_it = rw (e, store_task) refl }
    | inr (x, e) ↦
        absurd (recovered_old fingerprint x _ t (rw (e, store_task) at h) (rw (e, store_task) at k))
  ]

  requested-Made :
      (id : ℕ) (clock : Clock) (fingerprint payload : String) (w : World B) (t : Task)
      → (requested id clock fingerprint payload w).1.replayed ≡ false
      → (requested id clock fingerprint payload w).1.task ≡ some t
      → Made clock w
          (requested_task id clock.created input fingerprint payload)
          (requested id clock fingerprint payload w)
  unfolding create_requested
  requested-Made id clock fingerprint payload w t h k =
      let found = find_by_idempotency_key input.org_id input.queue input.idempotency_key w.table in
      elim (Result-cases found) [
        | inr (y, q) ↦ absurd (
            replay_old fingerprint y t (rw (q, create_requested) at h)
              (rw (q, create_requested) at k))
        | inl (y, q) ↦ elim (Bool-cases (is_not_found y)) [
          | inr e ↦ cc (rw (q, e, create_requested) at k)
          | inl e ↦
              rw (q, e, create_requested)
                (stored-Made fingerprint _ clock w t (rw (q, e, create_requested) at h)
                  (rw (q, e, create_requested) at k))
        ]
      ]

  created_row :
      (id : ℕ) (fingerprint : String) (u : Task) (rows : Table)
      → IsOf id input fingerprint u
      → input.idempotency_key ≢ ""
      → (create u rows).1 ≡ none
      → find (is_named input.org_id input.queue input.idempotency_key) (create u rows).0
        ≡ some (inserted_row u)
  created_row id fingerprint u rows k named clean =
      subst (λ (o : ℕ). finds o input.queue input.idempotency_key) k.org
        (subst (λ (q : String). finds u.org_id q input.idempotency_key) k.queue
          (subst (λ (i : String). finds u.org_id u.queue i) k.key
            (find-create u rows (λ e. named (sym k.key ∙ e)) clean)))
    where
      finds : ℕ → String → String → Type 0
      finds o q i = find (is_named o q i) (create u rows).0 ≡ some (inserted_row u)

  -- the row that the key finds after the request that made the task
  made_row :
      (id : ℕ) (fingerprint : String) (u : Task) (clock : Clock) (w : World B)
      → IsOf id input fingerprint u
      → input.idempotency_key ≢ ""
      → (create u w.table).1 ≡ none
      → (r : TaskRow) × Holds
          (announced u clock (record { table = (create u w.table).0; rest = w.rest })).0
          r
        × IsRowOf id fingerprint r
  unfolding dispatched_row
  made_row id fingerprint u clock w k named clean =
      let v : World B = record { table = (create u w.table).0; rest = w.rest } in
      let first = created_row id fingerprint u w.table k named clean in
      let own = inserted_row-IsRowOf id input fingerprint u k in
      elim (announced-table u clock v) [
        | inl e ↦ rw e (inserted_row u, first, own)
        | inr e ↦ rw e (
            find-mark_dispatched (is_named input.org_id input.queue input.idempotency_key) u.org_id
              u.id clock.now v.table id fingerprint (λ s. refl) own first)
      ]

  requested_again :
      (id id' : ℕ) (clock clock' : Clock) (fingerprint payload : String) (w : World B) (t : Task)
      → input.idempotency_key ≢ ""
      → (requested id clock fingerprint payload w).1.replayed ≡ false
      → (requested id clock fingerprint payload w).1.task ≡ some t
      → (r : TaskRow) × (requested id' clock' fingerprint payload
            (requested id clock fingerprint payload w).0
          ≡ (
            (requested id clock fingerprint payload w).0,
            record { task = some (to_domain r); replayed = true; error = none },
          ))
        × (r.id ≡ t.id)
  requested_again id id' clock clock' fingerprint payload w t named h k =
      let u = requested_task id clock.created input fingerprint payload in
      let of_u = requested_task-IsOf id clock.created input fingerprint payload in
      let made = requested-Made id clock fingerprint payload w t h k in
      let (r, there, row) = made_row id fingerprint u clock w of_u named made.clean in
      let v : World B = record { table = (create u w.table).0; rest = w.rest } in
      let same : some u ≡ some t = sym (announced-task u clock v) ∙ (rw made.announced_it at k) in
      let same_id : u.id ≡ t.id = cc in
      (
        r,
        requested_found id' clock' (requested id clock fingerprint payload w).0 fingerprint payload
            r (rw made.announced_it there) row.signed,
        row.named ∙ sym of_u.number ∙ same_id,
      )

  -- A request with an idempotency key that created a task, whether or not its dispatch failed,
  -- can be sent again, at any time: on the table that the first one left it is answered with that
  -- task as a replay, without an error, and changes nothing.
  pub create_task_again :
      (id id' : ℕ) (clock clock' : Clock) (w : World B) (t : Task)
      → input.idempotency_key ≢ ""
      → (request id clock w).1.replayed ≡ false
      → (request id clock w).1.task ≡ some t
      → (u : Task) × (request id' clock' (request id clock w).0
          ≡ ((request id clock w).0, record { task = some u; replayed = true; error = none }))
        × (u.id ≡ t.id)
  unfolding to_domain
  create_task_again id id' clock clock' w t named h k =
      elim (Option-cases (request_fingerprint lib input)) [
        | inl e ↦ cc (request-none id clock w e)
        | inr ((fingerprint, payload), e) ↦
            let first = request-some id clock w fingerprint payload e in
            let second = request-some id' clock' (request id clock w).0 fingerprint payload e in
            let (r, again, same) =
              requested_again id id' clock clock' fingerprint payload w t named (rw first at h)
                (rw first at k) in
            (to_domain r, rw (second, first) again, same)
      ]
