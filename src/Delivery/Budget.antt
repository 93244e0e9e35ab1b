-- ===== src/Delivery/Budget.antt =====
-- ClaimDueWebhookDeliveries: which deliveries are attempted, and which are never attempted again.
use mathlib.Core.List.Memᴰ
use flowforge.Base.{
  ℕ, ◌≡◌, ◌≤◌, ◌<◌, ◌+◌, none, some, ◌⊎◌, refl, sym, subst, inl, inr, Bool, true, false, [], ◌∷◌,
  map, arith, All, All-mem, find, select, update, Memᴰ, Bool-cases, Option-cases, ==_iff, ◌==◌,
  Time,
}
use flowforge.Webhook.{delivering, pending, retrying}
use flowforge.Storage.{is_any}
use flowforge.Storage.Rows.{mem-select, mem-take, mem-update_other}
use flowforge.Delivery.{
  WebhookDelivery, Deliveries, due, comes_first, insert_delivery, order_deliveries, batch_limit,
  delivering_row, candidates, claim_due_webhook_deliveries, is_replayable, replayed_row,
  retry_webhook_delivery,
}

-- the primary key: no two rows have one id
abbrev pub IsNumbered : Deliveries → Type 0
IsNumbered [] = Unit
IsNumbered (d ∷ rows) = All (λ e. (e.id == d.id) ≡ false) rows × IsNumbered rows

same_row :
    (rows : Deliveries) {d e : WebhookDelivery}
    → IsNumbered rows
    → Memᴰ d rows
    → Memᴰ e rows
    → d.id ≡ e.id
    → d ≡ e
same_row [] k m n h = elim m [ ]
same_row (x ∷ rows) k (Memᴰ.head p) (Memᴰ.head q) h = cc
same_row (x ∷ rows) {d = d} {e = e} k (Memᴰ.head p) (Memᴰ.tail n) h =
    absurd (apart (All-mem (λ y. (y.id == x.id) ≡ false) rows k.0 n))
  where
    apart : (e.id == x.id) ≡ false → ⊥
    apart f = cc (f, (==_iff e.id x.id).1 (rw p at (sym h)))
same_row (x ∷ rows) {d = d} {e = e} k (Memᴰ.tail m) (Memᴰ.head q) h =
    absurd (apart (All-mem (λ y. (y.id == x.id) ≡ false) rows k.0 m))
  where
    apart : (d.id == x.id) ≡ false → ⊥
    apart f = cc (f, (==_iff d.id x.id).1 (rw q at h))
same_row (x ∷ rows) k (Memᴰ.tail m) (Memᴰ.tail n) h = same_row rows k.1 m n h

mem-insert :
    (d : WebhookDelivery) (rows : Deliveries) {e : WebhookDelivery}
    → Memᴰ e (insert_delivery d rows)
    → (e ≡ d) ⊎ Memᴰ e rows
unfolding insert_delivery
mem-insert d [] m = inl (Memᴰ.eq_of_singleton m)
mem-insert d (x ∷ rows) {e = e} m = elim (Bool-cases (comes_first d x)) [
  | inl b ↦ Memᴰ.cases_cons (rw (b, insert_delivery) at m)
  | inr b ↦ elim (Memᴰ.cases_cons (rw (b, insert_delivery) at m)) [
    | inl same ↦ inr (Memᴰ.head same)
    | inr n ↦ elim (mem-insert d rows n) [ inl new ↦ inl new | inr old ↦ inr (Memᴰ.tail old) ]
  ]
]

mem-order : (rows : Deliveries) {e : WebhookDelivery} → Memᴰ e (order_deliveries rows) → Memᴰ e rows
unfolding order_deliveries
mem-order [] m = m
mem-order (d ∷ rows) m = elim (mem-insert d (order_deliveries rows) m) [
  | inl same ↦ Memᴰ.head same
  | inr old ↦ Memᴰ.tail (mem-order rows old)
]

is_any-ids :
    (rows : Deliveries) (id : ℕ)
    → is_any (map (λ (d : WebhookDelivery). d.id) rows) id ≡ true
    → (d : WebhookDelivery) × Memᴰ d rows × (d.id ≡ id)
unfolding is_any
is_any-ids [] id h = cc
is_any-ids (d ∷ rows) id h = elim (Bool-cases (d.id == id)) [
  | inl e ↦ (d, Memᴰ.head refl, (==_iff d.id id).0 e)
  | inr e ↦ let (s, m, q) = is_any-ids rows id (ground arith) in (s, Memᴰ.tail m, q)
]

-- The row `r` could be attempted at `now`, and `d` is what the attempt is handed of it.
pub record IsAttemptOf (locked : ℕ → Bool) (now : Time) (r d : WebhookDelivery) : Type 0 where
  pub awaited : (r.status ≡ pending) ⊎ (r.status ≡ retrying)
  pub within : r.attempt_count < r.max_attempts
  pub due_by : (t : Time) → r.next_attempt_at ≡ some t → t ≤ now
  pub free : locked r.id ≡ false
  pub marked : d.status ≡ delivering
  pub counted : d.attempt_count ≡ r.attempt_count + 1
  pub stamped : d.last_attempt_at ≡ some now
  pub unscheduled : d.next_attempt_at ≡ none
  pub same_id : d.id ≡ r.id
  pub same_org : d.org_id ≡ r.org_id
  pub same_endpoint : d.endpoint_id ≡ r.endpoint_id
  pub same_event : d.event_type ≡ r.event_type
  pub same_payload : d.payload ≡ r.payload
  pub same_budget : d.max_attempts ≡ r.max_attempts

module _ (locked : ℕ → Bool) (now : Time) (limit : ℕ) (rows : Deliveries)
    (k : IsNumbered rows) where
  abbrev chosen : WebhookDelivery → Bool
  chosen d = is_any (candidates locked now limit rows) d.id

  chosen-due : {d : WebhookDelivery} → Memᴰ d rows → chosen d ≡ true → due locked now d ≡ true
  unfolding candidates
  chosen-due {d = d} m h =
      let (c, n, e) = is_any-ids _ d.id h in
      let (there, q) =
        mem-select (due locked now) rows (mem-order _ (mem-take (batch_limit limit) _ n)) in
      subst (λ x. due locked now x ≡ true) (same_row rows k there m e) q

  idle : (d : WebhookDelivery) → d.status ≡ delivering → due locked now d ≡ true → ⊥
  unfolding due
  idle d h q = ground arith

  due-IsAttemptOf :
      (r : WebhookDelivery)
      → due locked now r ≡ true
      → IsAttemptOf locked now r (delivering_row now r)
  unfolding due delivering_row
  due-IsAttemptOf r h = ground arith

  abbrev IsAttempt : WebhookDelivery → Type 0
  IsAttempt d = (r : WebhookDelivery) × Memᴰ r rows × IsAttemptOf locked now r d

  IsAttempt-of :
      (p : WebhookDelivery → Bool) (xs : Deliveries)
      → ((r : WebhookDelivery) → p (delivering_row now r) ≡ p r)
      → ((r : WebhookDelivery) → Memᴰ r xs → p r ≡ true → IsAttempt (delivering_row now r))
      → All IsAttempt (select p (update p (delivering_row now) xs))
  unfolding select update
  IsAttempt-of p [] same h = tt
  IsAttempt-of p (r ∷ xs) same h = elim (Bool-cases (p r)) [
    | inl e ↦
        rw (e, same r, e)
          (h r (Memᴰ.head refl) e, IsAttempt-of p xs same (λ s m. h s (Memᴰ.tail m)))
    | inr e ↦ rw (e, e) (IsAttempt-of p xs same (λ s m. h s (Memᴰ.tail m)))
  ]

  -- Every delivery that a claim hands out, when the ids of the rows are unique, is a row of the
  -- table that was pending or retrying, had fewer attempts than its maximum, was due by then and was
  -- not locked: it is handed out as delivering, with one attempt more, stamped with the time of the
  -- claim, and with its endpoint, event and payload as they were.
  pub claim-IsAttempt :
      All
        (λ d. (r : WebhookDelivery) × Memᴰ r rows × IsAttemptOf locked now r d)
        (claim_due_webhook_deliveries locked now limit rows).1
  unfolding claim_due_webhook_deliveries
  claim-IsAttempt =
      IsAttempt-of chosen rows (λ r. unfold delivering_row in refl)
        (λ r m e. (r, m, due-IsAttemptOf r (chosen-due m e)))

  -- A delivery that is delivering when its worker stops is stranded, in a table whose ids are
  -- unique: whatever the time, no claim and no retry by hand changes its row.
  pub claim_stranded :
      (org id : ℕ) {d : WebhookDelivery}
      → Memᴰ d rows
      → d.status ≡ delivering
      → Memᴰ d (claim_due_webhook_deliveries locked now limit rows).0
        × Memᴰ d (retry_webhook_delivery org id now rows).0
  unfolding claim_due_webhook_deliveries retry_webhook_delivery
  claim_stranded org id {d = d} m h = (
    elim (Bool-cases (chosen d)) [
      | inl e ↦ absurd (idle d h (chosen-due m e))
      | inr e ↦ mem-update_other chosen (delivering_row now) rows m e
    ],
    elim (Option-cases (find (is_replayable org id) rows)) [
      | inl e ↦ rw (e, retry_webhook_delivery) m
      | inr (x, e) ↦
          rw (e, retry_webhook_delivery)
            (mem-update_other (is_replayable org id) (replayed_row now) rows m (ground arith))
    ],
  )
