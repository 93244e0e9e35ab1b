-- ===== src/Storage/Rows.antt =====
-- Rows told apart by their keys, and the rows that an update touches.
use mathlib.Core.List.Memᴰ
use mathlib.Core.List.{Forall₂}
use flowforge.Base.{
  ℕ, zero, suc, String, ◌≡◌, refl, sym, ◌∙◌, subst, Bool, true, false, List, [], ◌∷◌, ◌++◌, map,
  Memᴰ, arith, All, All-mem, select, update, affected, take, Bool-cases, inl, inr, ◌⊎◌, ◌==◌,
  ==_iff, leb,
}
use flowforge.Storage.{
  TaskRow, Table, conflicts, insert_by_visible_at, order_by_visible_at, is_any, reclaimable,
  expired,
}

-- No row conflicts with a row above it: the unique indexes hold.
abbrev pub IsKeyed : Table → Type 0
IsKeyed [] = Unit
IsKeyed (r ∷ rows) = All (λ s. conflicts s r ≡ false) rows × IsKeyed rows

-- the columns of the two unique indexes
pub record SameKeys (r s : TaskRow) : Type 0 where
  pub same_id : r.id ≡ s.id
  pub same_org : r.org_id ≡ s.org_id
  pub same_queue : r.queue ≡ s.queue
  pub same_key : r.idempotency_key ≡ s.idempotency_key

conflicts-SameKeys :
    (r r' s s' : TaskRow) → SameKeys r r' → SameKeys s s' → conflicts r s ≡ conflicts r' s'
unfolding conflicts
conflicts-SameKeys r r' s s' h k =
    rw
      (
        h.same_id, h.same_org, h.same_queue, h.same_key, k.same_id, k.same_org, k.same_queue,
        k.same_key,
      )
      refl

pub SameKeys-refl : (r : TaskRow) → SameKeys r r
SameKeys-refl r = record { same_id = refl; same_org = refl; same_queue = refl; same_key = refl }

All-conflicts-Forall₂ :
    (r r' : TaskRow) {rows rows' : Table}
    → SameKeys r r'
    → Forall₂ SameKeys rows rows'
    → All (λ s. conflicts s r ≡ false) rows
    → All (λ s. conflicts s r' ≡ false) rows'
All-conflicts-Forall₂ r r' same Forall₂.nil h = tt
All-conflicts-Forall₂ r r' same (Forall₂.cons {a = s} {b = s'} k w) h =
    (sym (conflicts-SameKeys s s' r r' k same) ∙ h.0, All-conflicts-Forall₂ r r' same w h.1)

-- A change of rows that keeps their keys keeps the indexes.
pub IsKeyed-Forall₂ :
    {rows rows' : Table} → Forall₂ SameKeys rows rows' → IsKeyed rows → IsKeyed rows'
IsKeyed-Forall₂ Forall₂.nil h = tt
IsKeyed-Forall₂ (Forall₂.cons {a = r} {b = r'} k w) h =
    (All-conflicts-Forall₂ r r' k w h.0, IsKeyed-Forall₂ w h.1)

pub IsKeyed-snoc :
    (new : TaskRow) (rows : Table)
    → All (λ r. conflicts new r ≡ false) rows
    → IsKeyed rows
    → IsKeyed (rows ++ new ∷ [])
IsKeyed-snoc new [] h k = (tt, tt)
IsKeyed-snoc new (r ∷ rows) h k = (snoc rows k.0, IsKeyed-snoc new rows h.1 k.1)
  where
    snoc :
        (rows : Table)
        → All (λ s. conflicts s r ≡ false) rows
        → All (λ s. conflicts s r ≡ false) (rows ++ new ∷ [])
    snoc [] q = (h.0, tt)
    snoc (s ∷ rest) q = (q.0, snoc rest q.1)

id_conflicts : (r s : TaskRow) → r.id ≡ s.id → conflicts s r ≡ false → ⊥
unfolding conflicts
id_conflicts r s e h = ground arith

-- Rows of a keyed table are told apart by their ids.
pub eq_of_id :
    (rows : Table) {r s : TaskRow} → IsKeyed rows → Memᴰ r rows → Memᴰ s rows → r.id ≡ s.id → r ≡ s
eq_of_id [] k m n e = elim m [ ]
eq_of_id (x ∷ rows) k (Memᴰ.head a) (Memᴰ.head b) e = a ∙ sym b
eq_of_id (x ∷ rows) {r = r} {s = s} k (Memᴰ.head a) (Memᴰ.tail n) e =
    absurd (id_conflicts x s (rw (← a) e) (All-mem (λ y. conflicts y x ≡ false) rows k.0 n))
eq_of_id (x ∷ rows) {r = r} {s = s} k (Memᴰ.tail m) (Memᴰ.head b) e =
    absurd (id_conflicts x r (rw (← b) (sym e)) (All-mem (λ y. conflicts y x ≡ false) rows k.0 m))
eq_of_id (x ∷ rows) k (Memᴰ.tail m) (Memᴰ.tail n) e = eq_of_id rows k.1 m n e

pub mem-take {ℓ} : {A : Type ℓ} (n : ℕ) (xs : List A) {a : A} → Memᴰ a (take n xs) → Memᴰ a xs
mem-take zero xs m = elim m [ ]
mem-take (suc n) [] m = elim m [ ]
mem-take (suc n) (x ∷ xs) (Memᴰ.head e) = Memᴰ.head e
mem-take (suc n) (x ∷ xs) (Memᴰ.tail m) = Memᴰ.tail (mem-take n xs m)

pub mem-select {ℓ} :
    {A : Type ℓ} (p : A → Bool) (xs : List A) {a : A}
    → Memᴰ a (select p xs)
    → Memᴰ a xs × (p a ≡ true)
unfolding select
mem-select p [] m = elim m [ ]
mem-select p (x ∷ xs) {a = a} m = elim (Bool-cases (p x)) [
  | inl e ↦ elim (Memᴰ.cases_cons (rw (e, select) at m)) [
    | inl same ↦ (Memᴰ.head same, subst (λ y. p y ≡ true) (sym same) e)
    | inr n ↦ let (there, q) = mem-select p xs n in (Memᴰ.tail there, q)
  ]
  | inr e ↦ let (there, q) = mem-select p xs {a = a} (rw (e, select) at m) in (Memᴰ.tail there, q)
]

mem-insert :
    (r : TaskRow) (rows : Table) {s : TaskRow}
    → Memᴰ s (insert_by_visible_at r rows)
    → (s ≡ r) ⊎ Memᴰ s rows
unfolding insert_by_visible_at
mem-insert r [] m = inl (Memᴰ.eq_of_singleton m)
mem-insert r (x ∷ rows) {s = s} m = elim (Bool-cases (leb r.visible_at x.visible_at)) [
  | inl e ↦ Memᴰ.cases_cons (rw (e, insert_by_visible_at) at m)
  | inr e ↦ elim (Memᴰ.cases_cons (rw (e, insert_by_visible_at) at m)) [
    | inl same ↦ inr (Memᴰ.head same)
    | inr n ↦ elim (mem-insert r rows n) [ inl new ↦ inl new | inr old ↦ inr (Memᴰ.tail old) ]
  ]
]

mem-order : (rows : Table) {s : TaskRow} → Memᴰ s (order_by_visible_at rows) → Memᴰ s rows
unfolding order_by_visible_at
mem-order [] m = m
mem-order (r ∷ rows) m = elim (mem-insert r (order_by_visible_at rows) m) [
  | inl same ↦ Memᴰ.head same
  | inr old ↦ Memᴰ.tail (mem-order rows old)
]

-- A reclaimed row is an expired row of the table.
pub mem-reclaimable :
    (locked : ℕ → Bool) (org : ℕ) (queue : String) (now limit : ℕ) (rows : Table) {r : TaskRow}
    → Memᴰ r (reclaimable locked org queue now limit rows)
    → Memᴰ r rows × (expired locked org queue now r ≡ true)
unfolding reclaimable
mem-reclaimable locked org queue now limit rows m =
    mem-select (expired locked org queue now) rows (mem-order _ (mem-take limit _ m))

pub is_any-map :
    (rows : Table) (id : ℕ)
    → is_any (map (λ (r : TaskRow). r.id) rows) id ≡ true
    → (r : TaskRow) × Memᴰ r rows × (r.id ≡ id)
unfolding is_any
is_any-map [] id h = cc
is_any-map (r ∷ rows) id h = elim (Bool-cases (r.id == id)) [
  | inl e ↦ (r, Memᴰ.head refl, (==_iff r.id id).0 e)
  | inr e ↦ let (s, m, q) = is_any-map rows id (ground arith) in (s, Memᴰ.tail m, q)
]

pub affected_none {ℓ} :
    {A : Type ℓ} (p : A → Bool) (xs : List A) → affected p xs ≡ 0 → All (λ x. p x ≡ false) xs
unfolding affected
affected_none p [] h = tt
affected_none p (x ∷ xs) h = elim (Bool-cases (p x)) [
  | inl e ↦ absurd (ground arith)
  | inr e ↦ (e, affected_none p xs (ground arith))
]

module _ {ℓ} {A : Type ℓ} where
  pub affected_pos :
      (p : A → Bool) (xs : List A) {a : A} → Memᴰ a xs → p a ≡ true → (affected p xs == 0) ≡ false
  unfolding affected
  affected_pos p [] m h = elim m [ ]
  affected_pos p (x ∷ xs) (Memᴰ.head e) h = rw (subst (λ y. p y ≡ true) e h) (ground arith)
  affected_pos p (x ∷ xs) (Memᴰ.tail m) h = ground (arith, affected_pos p xs m h)

  -- what holds of every row after an update, by the two kinds of rows before it
  pub All_of_update :
      (P : A → Type 0) (p : A → Bool) (f : A → A) (xs : List A)
      → ((a : A) → p a ≡ true → P (f a))
      → ((a : A) → p a ≡ false → P a)
      → All P (update p f xs)
  unfolding update
  All_of_update P p f [] h k = tt
  All_of_update P p f (x ∷ xs) h k = (
    elim (Bool-cases (p x)) [ inl e ↦ rw e (h x e) | inr e ↦ rw e (k x e) ],
    All_of_update P p f xs h k,
  )

  pub mem-update :
      (p : A → Bool) (f : A → A) (xs : List A) {a : A}
      → Memᴰ a xs
      → p a ≡ true
      → Memᴰ (f a) (update p f xs)
  unfolding update
  mem-update p f [] m h = elim m [ ]
  mem-update p f (x ∷ xs) {a = a} (Memᴰ.head e) h =
      Memᴰ.head (rw (subst (λ y. p y ≡ true) e h, e) refl)
  mem-update p f (x ∷ xs) (Memᴰ.tail m) h = Memᴰ.tail (mem-update p f xs m h)

  pub mem-update_other :
      (p : A → Bool) (f : A → A) (xs : List A) {a : A}
      → Memᴰ a xs
      → p a ≡ false
      → Memᴰ a (update p f xs)
  unfolding update
  mem-update_other p f [] m h = elim m [ ]
  mem-update_other p f (x ∷ xs) {a = a} (Memᴰ.head e) h =
      Memᴰ.head (rw (subst (λ y. p y ≡ false) e h, e) refl)
  mem-update_other p f (x ∷ xs) (Memᴰ.tail m) h = Memᴰ.tail (mem-update_other p f xs m h)
