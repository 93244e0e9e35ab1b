-- ===== src/Validation/Ends.antt =====
-- The depth-first search ends: no path of calls holds a node twice, so none is longer than the names.
use flowforge.Base.{
  ℕ, zero, suc, ◌+◌, ◌≤◌, ◌<◌, String, ◌≡◌, ◌≢◌, refl, ap, subst, some, inl, inr, ◌⊎◌, true, false,
  List, [], ◌∷◌, ◌++◌, length, All, arith, Bool-cases, str_eq, eq_iff, if◌then◌else◌,
}
use flowforge.Discovery.{has}
use flowforge.Validation.Graph.{
  Link, targets_of, Search, cyclic, finished, out_of_fuel, visit_each, visit, names_of, find_cycle,
  Reached, mark_targets, reach, reachable_from,
}
use flowforge.Validation.Acyclic.{Search-cases, has_self}

-- the names that are not on the path
unseen : List String → List String → ℕ
unseen path [] = 0
unseen path (u ∷ names) = if has u path then unseen path names else suc (unseen path names)

unseen-le : (path names : List String) → unseen path names ≤ length names
unfolding unseen
unseen-le path [] = omega arith
unseen-le path (u ∷ names) = let rest = unseen-le path names in ground arith

unseen_mono : (x : String) (path names : List String) → unseen (x ∷ path) names ≤ unseen path names
unfolding unseen
unseen_mono x path [] = omega arith
unseen_mono x path (u ∷ names) = let rest = unseen_mono x path names in ground arith

-- a step onto a new name makes the count fall
unseen-lt :
    (x : String) (path names : List String)
    → has x path ≡ false
    → has x names ≡ true
    → unseen (x ∷ path) names < unseen path names
unfolding unseen
unseen-lt x path [] p h = absurd (ground arith)
unseen-lt x path (u ∷ names) p h = elim (Bool-cases (str_eq u x)) [
  | inl e ↦
      let same : u ≡ x = (eq_iff u x).0 e in
      let new : has u path ≡ false = rw same p in
      let old : has u (x ∷ path) ≡ true =
        subst (λ w. has u (w ∷ path) ≡ true) same (has_self u path) in
      let rest = unseen_mono x path names in rw (old, new) (omega (arith, rest))
  | inr e ↦ let rest = unseen-lt x path names p (rw e at h) in ground (arith, rest)
]

has-append_left : (x : String) (xs ys : List String) → has x xs ≡ true → has x (xs ++ ys) ≡ true
has-append_left x [] ys h = absurd (ground arith)
has-append_left x (y ∷ xs) ys h = elim (Bool-cases (str_eq y x)) [
  | inl e ↦ rw e refl
  | inr e ↦ rw e (has-append_left x xs ys (rw e at h))
]

has-append_right : (x : String) (xs ys : List String) → has x ys ≡ true → has x (xs ++ ys) ≡ true
has-append_right x [] ys h = h
has-append_right x (y ∷ xs) ys h = rw (has-append_right x xs ys h) (ground arith)

module _ (names : List String) where
  each_ends :
      (v : List String → String → Search) (path nexts done : List String)
      → ((d : List String) (id : String)
          → has id path ≡ false
          → has id names ≡ true
          → v d id ≢ out_of_fuel)
      → All (λ y. has y names ≡ true) nexts
      → visit_each v path nexts done ≢ out_of_fuel
  unfolding visit_each
  each_ends v path [] done w k h = cc
  each_ends v path (next ∷ nexts) done w k h = elim (Bool-cases (has next path)) [
    | inl p ↦ absurd (ground arith)
    | inr p ↦ elim (Bool-cases (has next done)) [
      | inl q ↦ each_ends v path nexts done w k.1 (rw (p, q, visit_each) at h)
      | inr q ↦ elim (Search-cases (v done next)) [
        | inl e ↦ absurd (ground arith)
        | inr (inl e) ↦ w done next p k.0 e
        | inr (inr (d, e)) ↦ each_ends v path nexts d w k.1 (rw (p, q, e, visit_each) at h)
      ]
    ]
  ]

  visit_ends :
      (links : List Link) (fuel : ℕ) (path done : List String) (id : String)
      → ((x : String) → All (λ y. has y names ≡ true) (targets_of links x))
      → has id path ≡ false
      → has id names ≡ true
      → unseen path names < fuel
      → visit fuel links path done id ≢ out_of_fuel
  unfolding visit
  visit_ends links zero path done id t p k b h = omega arith
  visit_ends links (suc fuel) path done id t p k b h =
      let fewer = unseen-lt id path names p k in
      let inner =
        each_ends (λ d next. visit fuel links (id ∷ path) d next) (id ∷ path) (targets_of links id)
          done
          (λ d next q l. visit_ends links fuel (id ∷ path) d next t q l (omega (arith, fewer, b)))
          (t id) in
      elim (Search-cases (
        visit_each (λ d next. visit fuel links (id ∷ path) d next) (id ∷ path) (targets_of links id)
          done)) [
            | inl e ↦ absurd (ground arith)
            | inr (inl e) ↦ inner e
            | inr (inr (d, e)) ↦ absurd (ground arith)
          ]

All-weaken :
    (xs ys zs : List String)
    → ((z : String) → has z xs ≡ true → has z ys ≡ true)
    → All (λ z. has z xs ≡ true) zs
    → All (λ z. has z ys ≡ true) zs
All-weaken xs ys [] f k = tt
All-weaken xs ys (z ∷ zs) f k = (f z k.0, All-weaken xs ys zs f k.1)

targets_named :
    (links : List Link) (x : String) → All (λ y. has y (names_of links) ≡ true) (targets_of links x)
unfolding targets_of names_of
targets_named [] x = tt
targets_named (l ∷ links) x =
    let wider : All (λ y. has y (names_of (l ∷ links)) ≡ true) (targets_of links x) =
      All-weaken (names_of links) (names_of (l ∷ links)) (targets_of links x)
        (λ z h. rw h (ground arith)) (targets_named links x) in
    elim (Bool-cases (str_eq l.start x)) [
      | inl e ↦ rw e (rw (has_self l.end (names_of links)) (ground arith), wider)
      | inr e ↦ rw e wider
    ]

ids_named : (ids ys : List String) → All (λ y. has y (ids ++ ys) ≡ true) ids
ids_named [] ys = tt
ids_named (x ∷ ids) ys = (
  has_self x (ids ++ ys),
  All-weaken (ids ++ ys) (x ∷ ids ++ ys) ids (λ z h. rw h (ground arith)) (ids_named ids ys),
)

-- The search for a cycle ends by itself, for any links and ids: the depth that it is given, one more
-- than the number of names, is never used up, so it finds a cycle or visits every id.
pub find_cycle_ends :
    (links : List Link) (ids : List String)
    → (find_cycle links ids ≡ cyclic) ⊎ ((d : List String) × (find_cycle links ids ≡ finished d))
unfolding find_cycle
find_cycle_ends links ids =
    let names = ids ++ names_of links in
    let ends =
      each_ends names (λ done id. visit (suc (length names)) links [] done id) [] ids []
        (λ d id p k.
          visit_ends names links (suc (length names)) [] d id
            (λ x.
              All-weaken (names_of links) names (targets_of links x)
                (λ z h. has-append_right z ids (names_of links) h) (targets_named links x))
            p k (let bound = unseen-le [] names in omega (arith, bound)))
        (ids_named ids (names_of links)) in
    elim (Search-cases (find_cycle links ids)) [
      | inl e ↦ inl e
      | inr (inl e) ↦ absurd (ends e)
      | inr (inr found) ↦ inr found
    ]

ends_of : List Link → List String
ends_of [] = []
ends_of (l ∷ links) = l.end ∷ ends_of links

length-ends_of : (links : List Link) → length (ends_of links) ≡ length links
unfolding ends_of
length-ends_of [] = refl
length-ends_of (l ∷ links) = ap suc (length-ends_of links)

targets_end :
    (links : List Link) (x : String) → All (λ y. has y (ends_of links) ≡ true) (targets_of links x)
unfolding targets_of ends_of
targets_end [] x = tt
targets_end (l ∷ links) x =
    let wider : All (λ y. has y (ends_of (l ∷ links)) ≡ true) (targets_of links x) =
      All-weaken (ends_of links) (ends_of (l ∷ links)) (targets_of links x)
        (λ z h. rw h (ground arith)) (targets_end links x) in
    elim (Bool-cases (str_eq l.start x)) [
      | inl e ↦ rw e (has_self l.end (ends_of links), wider)
      | inr e ↦ rw e wider
    ]

length-snoc : (xs : List String) (x : String) → length (xs ++ x ∷ []) ≡ suc (length xs)
length-snoc [] x = refl
length-snoc (y ∷ xs) x = ap suc (length-snoc xs x)

-- what is queued is newly marked, so the sum of the two does not grow
mark_targets-le :
    (names nexts : List String) (r : Reached)
    → All (λ y. has y names ≡ true) nexts
    → length (mark_targets nexts r).queue + unseen (mark_targets nexts r).reachable names
      ≤ length r.queue + unseen r.reachable names
unfolding mark_targets
mark_targets-le names [] r k = omega arith
mark_targets-le names (next ∷ nexts) r k = elim (Bool-cases (has next r.reachable)) [
  | inl e ↦ rw (e, mark_targets) (mark_targets-le names nexts r k.1)
  | inr e ↦
      let r' : Reached = record { queue = r.queue ++ next ∷ []; reachable = next ∷ r.reachable } in
      let rest = mark_targets-le names nexts r' k.1 in
      let fewer = unseen-lt next r.reachable names e k.0 in
      let longer = length-snoc r.queue next in
      rw (e, mark_targets) (omega (arith, rest, fewer, longer))
]

reach_ends :
    (fuel : ℕ) (links : List Link) (queue reachable : List String)
    → length queue + unseen reachable (ends_of links) ≤ fuel
    → (r : List String) × (reach fuel links queue reachable ≡ some r)
unfolding reach
reach_ends fuel links [] reachable h = (reachable, refl)
reach_ends zero links (current ∷ queue) reachable h = absurd (omega arith)
reach_ends (suc fuel) links (current ∷ queue) reachable h =
    let r : Reached = record { queue = queue; reachable = reachable } in
    let marked = mark_targets (targets_of links current) r in
    let fewer =
      mark_targets-le (ends_of links) (targets_of links current) r (targets_end links current) in
    reach_ends fuel links marked.queue marked.reachable (omega (arith, fewer, h))

-- The search of the reachable nodes ends by itself: a round for each trigger and each link suffices.
pub reachable_from_ends :
    (links : List Link) (triggers : List String)
    → (r : List String) × (reachable_from links triggers ≡ some r)
unfolding reachable_from
reachable_from_ends links triggers =
    let bound = unseen-le triggers (ends_of links) in
    let size = length-ends_of links in
    reach_ends (length triggers + length links) links triggers triggers (omega (arith, bound, size))
