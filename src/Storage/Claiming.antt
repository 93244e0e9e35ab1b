-- ===== src/Storage/Claiming.antt =====
-- ClaimForProcessing and Heartbeat: one worker at a time holds a task.

use flowforge.Base.{
  ℕ, List, add_int64, add_time, mul_int64, ◌≤◌, ◌<◌, ◌≡◌, ◌≢◌, ◌↔◌, refl, sym, ap, subst, ◌∙◌, inl,
  inr, Bool, true, false, arith, All, find, find-mem, find-none, update, affected_zero, Bool-cases,
  Option-cases, Time, Duration, String, none, some, task_already_locked, ok, err, Memᴰ, All-mem,
  str_eq, eq_iff,
}
use flowforge.Task.{Task, processing, mark_processing}
use flowforge.Storage.{
  TaskRow, Table, completed_row, millisecond, to_domain, claimable, claimed_row,
  claim_for_processing, heartbeat, is_owned, has_ids, complete, is_running,
}
use flowforge.Storage.Statement.{Statement, run}
use flowforge.Storage.Holding.{IsHolding, IsQuiet, run-IsHolding, claim_of_holding}
use flowforge.Storage.Rows.{
  IsKeyed, All_of_update, affected_pos, eq_of_id, mem-update, mem-update_other,
}

-- A claim that succeeds found a row, and marked it.
pub claim-eq-ok :
    (locked : ℕ → Bool) (org id : ℕ) (worker : String) (now : Time) (rows : Table) {t : Task}
    → (claim_for_processing locked org id worker now rows).1 ≡ ok t
    → (r : TaskRow) × Memᴰ r rows
      × (claimable locked org id now r ≡ true)
      × (t ≡ mark_processing worker now (to_domain r))
      × ((claim_for_processing locked org id worker now rows).0
          ≡ update (has_ids org t.id) (claimed_row t now) rows)
unfolding claim_for_processing
claim-eq-ok locked org id worker now rows {t = t} h =
    elim (Option-cases (find (claimable locked org id now) rows)) [
      | inl e ↦ cc (rw (e, claim_for_processing) at h)
      | inr (r, e) ↦
          let (m, q) = find-mem (claimable locked org id now) rows e in
          let same : ok (mark_processing worker now (to_domain r)) ≡ ok t =
            rw (e, claim_for_processing) at h in
          let marked : mark_processing worker now (to_domain r) ≡ t = cc in
          (
            r,
            m,
            q,
            sym marked,
            rw (e, claim_for_processing)
                (ap (λ (u : Task). update (has_ids org u.id) (claimed_row u now) rows) marked),
          )
    ]

claimed-id :
    (locked : ℕ → Bool) (org id : ℕ) (worker : String) (now : Time) (r : TaskRow)
    → claimable locked org id now r ≡ true
    → (mark_processing worker now (to_domain r)).id ≡ id
unfolding claimable mark_processing to_domain
claimed-id locked org id worker now r h = ground arith

heartbeat_of_none :
    (org id : ℕ) (worker : String) (d : Duration) (now : Time) (rows : Table)
    → All (λ r. is_owned org id worker r ≡ false) rows
    → (heartbeat org id worker d now rows).1 ≡ some task_already_locked
unfolding heartbeat
heartbeat_of_none org id worker d now rows h =
    rw (affected_zero (is_owned org id worker) rows h) refl

heartbeat_of_some :
    (org id : ℕ) (worker : String) (d : Duration) (now : Time) (rows : Table) {r : TaskRow}
    → Memᴰ r rows
    → is_owned org id worker r ≡ true
    → (heartbeat org id worker d now rows).1 ≡ none
unfolding heartbeat
heartbeat_of_some org id worker d now rows m h =
    rw (affected_pos (is_owned org id worker) rows m h) refl

-- a row that the claim wrote, and one that it did not
claimed_row_held :
    (worker : String) (now : Time) (t : Task) (r s : TaskRow)
    → t ≡ mark_processing worker now (to_domain r)
    → ((claimed_row t now s).status ≡ processing)
      × (t.visible_at ≤ (claimed_row t now s).visible_at)
unfolding claimed_row mark_processing to_domain
claimed_row_held worker now t r s e = ground arith

claimed_row_owner :
    (org : ℕ) (worker worker' : String) (now : Time) (t : Task) (r s : TaskRow)
    → t ≡ mark_processing worker now (to_domain r)
    → worker' ≢ worker
    → is_owned org t.id worker' (claimed_row t now s) ≡ false
unfolding claimed_row mark_processing to_domain
claimed_row_owner org worker worker' now t r s e h = ground (arith, eq_iff worker worker')

claimed_row_owned :
    (locked : ℕ → Bool) (org id : ℕ) (worker : String) (now : Time) (t : Task) (r : TaskRow)
    → t ≡ mark_processing worker now (to_domain r)
    → claimable locked org id now r ≡ true
    → is_owned org id worker (claimed_row t now r) ≡ true
unfolding claimable claimed_row mark_processing to_domain
claimed_row_owned locked org id worker now t r e h = ground (arith, eq_iff worker worker)

other_row_owner :
    (org id : ℕ) (worker : String) (s : TaskRow)
    → has_ids org id s ≡ false
    → is_owned org id worker s ≡ false
other_row_owner org id worker s h = ground arith

claimable_named :
    (locked : ℕ → Bool) (org id : ℕ) (now : Time) (r : TaskRow)
    → claimable locked org id now r ≡ true
    → has_ids org id r ≡ true
unfolding claimable
claimable_named locked org id now r h = ground arith

expired_claimable :
    (locked : ℕ → Bool) (now : Time) (r : TaskRow)
    → r.status ≡ processing
    → r.deleted_at ≡ none
    → r.visible_at < now
    → locked r.id ≡ false
    → claimable locked r.org_id r.id now r ≡ true
unfolding claimable
expired_claimable locked now r p d v l = ground arith

claimable_id :
    (locked : ℕ → Bool) (now : Time) (r s : TaskRow)
    → claimable locked r.org_id r.id now s ≡ true
    → s.id ≡ r.id
unfolding claimable
claimable_id locked now r s h = ground arith

module _ (locked : ℕ → Bool) (org id : ℕ) (worker : String) (now : Time) (rows : Table) {t : Task}
    (won : (claim_for_processing locked org id worker now rows).1 ≡ ok t) where
  abbrev after : Table
  after = (claim_for_processing locked org id worker now rows).0

  pub claim_named : t.id ≡ id
  claim_named =
      let (r, m, q, e, _) = claim-eq-ok locked org id worker now rows won in
      ap (λ (u : Task). u.id) e ∙ claimed-id locked org id worker now r q

  claim-IsHolding : All (IsHolding org id t.visible_at) after
  claim-IsHolding =
      let (r, m, q, e, a) = claim-eq-ok locked org id worker now rows won in
      rw a (
        All_of_update (IsHolding org id t.visible_at) (has_ids org t.id) (claimed_row t now) rows
          (λ s p named. claimed_row_held worker now t r s e)
          (λ s p named. cc (rw claim_named at p, named)))

  -- Until the visibility deadline that a successful claim returned, no claim of the task succeeds,
  -- by whatever worker and whichever rows other transactions have locked, and the table stays as it
  -- is. Any statements may come between the two claims, other claims, heartbeats, reclaims,
  -- cancellations and replays among them, except that none completes, fails or buries the task,
  -- beats it to a deadline before this one, claims it or reclaims in its organisation at a time after
  -- this one, or inserts a task with its id.
  pub claim_excludes :
      (history : List Statement) (locked' : ℕ → Bool) (worker' : String) (now' : Time)
      → All (IsQuiet org id t.visible_at) history
      → now' ≤ t.visible_at
      → claim_for_processing locked' org id worker' now' (run history after)
        ≡ (run history after, err task_already_locked)
  claim_excludes history locked' worker' now' q h =
      claim_of_holding org id t.visible_at locked' worker' now' (run history after) h
        (run-IsHolding org id t.visible_at history after q claim-IsHolding)

  heartbeat_refused :
      (worker' : String) (d : Duration) (now' : Time)
      → worker' ≢ worker
      → (heartbeat org id worker' d now' after).1 ≡ some task_already_locked
  heartbeat_refused worker' d now' h =
      let (r, m, q, e, a) = claim-eq-ok locked org id worker now rows won in
      heartbeat_of_none org id worker' d now' after (
        rw a (
          All_of_update _ (has_ids org t.id) (claimed_row t now) rows
            (λ s p.
              subst (λ (i : ℕ). is_owned org i worker' (claimed_row t now s) ≡ false) claim_named
                (claimed_row_owner org worker worker' now t r s e h))
            (λ s p. other_row_owner org id worker' s (rw claim_named at p))))

  claimed-mem : (r : TaskRow) × Memᴰ r after × (is_owned org id worker r ≡ true)
  claimed-mem =
      let (r, m, q, e, a) = claim-eq-ok locked org id worker now rows won in
      (
        claimed_row t now r,
        rw a (
            mem-update (has_ids org t.id) (claimed_row t now) rows m
              (rw claim_named (claimable_named locked org id now r q))),
        claimed_row_owned locked org id worker now t r e q,
      )

  -- After a claim, a heartbeat is accepted exactly from the worker that claimed.
  pub heartbeat_iff :
      (worker' : String) (visibility_timeout : Duration) (now' : Time)
      → ((heartbeat org id worker' visibility_timeout now' after).1 ≡ none) ↔ (worker' ≡ worker)
  heartbeat_iff worker' d now' = (
    λ h. elim (Bool-cases (str_eq worker' worker)) [
      | inl e ↦ (eq_iff worker' worker).0 e
      | inr e ↦ cc (heartbeat_refused worker' d now' (λ same. cc ((eq_iff worker' worker).1 same)))
    ],
    λ e. let (r, m, q) = claimed-mem in heartbeat_of_some org id worker' d now' after m (rw e q),
  )

  -- Complete does not ask who holds the task: after any worker's claim it succeeds for every caller,
  -- and changes no row but the task's.
  pub complete_unowned :
      (now' : Time)
      → ((complete org id now' after).1 ≡ none)
        × ((s : TaskRow)
            → Memᴰ s after
            → has_ids org id s ≡ false
            → Memᴰ s (complete org id now' after).0)
  unfolding complete
  complete_unowned now' =
      let (r, m, q) = claimed-mem in
      (
        rw (affected_pos (is_running org id) after m (ground arith)) refl,
        λ s n other.
            mem-update_other (is_running org id) (completed_row now') after n (ground arith),
      )

recovered :
    (locked : ℕ → Bool) (worker : String) (now : Time) (rows : Table) (r : TaskRow)
    → IsKeyed rows
    → Memᴰ r rows
    → r.status ≡ processing
    → r.deleted_at ≡ none
    → r.visible_at < now
    → locked r.id ≡ false
    → (claim_for_processing locked r.org_id r.id worker now rows).1
      ≡ ok (mark_processing worker now (to_domain r))
unfolding claim_for_processing
recovered locked worker now rows r k m p d v l =
    elim (Option-cases (find (claimable locked r.org_id r.id now) rows)) [
      | inl e ↦ cc (
        expired_claimable locked now r p d v l,
        All-mem (λ s. claimable locked r.org_id r.id now s ≡ false) rows (find-none _ rows e) m,
      )
      | inr (s, e) ↦
          let (n, q) = find-mem (claimable locked r.org_id r.id now) rows e in
          rw (e, claim_for_processing)
            (ap (λ (x : TaskRow). ok (mark_processing worker now (to_domain x)))
              (eq_of_id rows k n m (claimable_id locked now r s q)))
    ]

-- A row that a crashed worker left behind, past its deadline, not deleted and not locked, in a
-- table whose unique indexes hold, is claimed by the next worker that asks: the claim returns the
-- task marked for that worker, processing, with one attempt more and the deadline that its visibility
-- timeout gives from now on.
pub claim_recovers :
    (locked : ℕ → Bool) (worker : String) (now : Time) (rows : Table) (r : TaskRow)
    → IsKeyed rows
    → Memᴰ r rows
    → r.status ≡ processing
    → r.deleted_at ≡ none
    → r.visible_at < now
    → locked r.id ≡ false
    → ((claim_for_processing locked r.org_id r.id worker now rows).1
        ≡ ok (mark_processing worker now (to_domain r)))
      × ((mark_processing worker now (to_domain r)).id ≡ r.id)
      × ((mark_processing worker now (to_domain r)).status ≡ processing)
      × ((mark_processing worker now (to_domain r)).locked_by ≡ worker)
      × ((mark_processing worker now (to_domain r)).attempts ≡ add_int64 r.attempts 1)
      × ((mark_processing worker now (to_domain r)).visible_at
          ≡ add_time now (mul_int64 r.visibility_timeout_ms millisecond))
unfolding mark_processing to_domain
claim_recovers locked worker now rows r k m p d v l =
    (recovered locked worker now rows r k m p d v l, refl, refl, refl, refl, refl)
