-- ===== src/Validation/Acyclic.antt =====
-- A depth-first search that finds no cycle leaves a topological order, so there is none.

use flowforge.Base.{
  ℕ, zero, suc, String, ◌≡◌, refl, subst, inl, inr, ◌⊎◌, true, false, List, [], ◌∷◌, ◌++◌, length,
  All, arith, Bool-cases, str_eq, eq_iff, if◌then◌else◌,
}
use flowforge.Discovery.{has}
use flowforge.Validation.Graph.{
  Link, targets_of, Search, cyclic, finished, out_of_fuel, visit_each, visit, names_of, find_cycle,
}

pub Search-cases :
    (s : Search) → (s ≡ cyclic) ⊎ (s ≡ out_of_fuel) ⊎ ((d : List String) × (s ≡ finished d))
Search-cases cyclic = inl refl
Search-cases out_of_fuel = inr (inl refl)
Search-cases (finished d) = inr (inr (d, refl))

pub has_self : (x : String) (xs : List String) → has x (x ∷ xs) ≡ true
has_self x xs = ground (arith, eq_iff x x)

other_than :
    (x y : String) (xs : List String) → has x xs ≡ false → has y xs ≡ true → str_eq x y ≡ false
other_than x y xs h k = elim (Bool-cases (str_eq x y)) [
  | inr e ↦ e
  | inl e ↦
      let same : x ≡ y = (eq_iff x y).0 e in let clash : has y xs ≡ false = rw (← same) h in cc
]

module _ (links : List Link) where
  abbrev pub Known : List String → List String → Type 0
  Known d = All (λ y. has y d ≡ true)

  -- Every node comes before its targets, once.
  abbrev pub IsOrdered : List String → Type 0
  IsOrdered [] = Unit
  IsOrdered (x ∷ d) = Known d (targets_of links x) × (has x d ≡ false) × IsOrdered d

  -- `d` has the nodes of `done`, and none of the path that `done` has not.
  record Grows (path done d : List String) : Type 0 where
    more : (y : String) → has y done ≡ true → has y d ≡ true
    apart : (y : String) → has y path ≡ true → has y done ≡ false → has y d ≡ false

  Grows-trans : {path a b c : List String} → Grows path a b → Grows path b c → Grows path a c
  Grows-trans g h = record {
    more = λ y e. h.more y (g.more y e);
    apart = λ y p e. h.apart y p (g.apart y p e);
  }

  Known-Grows :
      {path a b : List String} (ys : List String) → Grows path a b → Known a ys → Known b ys
  Known-Grows [] g k = tt
  Known-Grows (y ∷ ys) g k = (g.more y k.0, Known-Grows ys g k.1)

  -- what a visit of `id` comes to
  record Visited (path done d : List String) (id : String) : Type 0 where
    ordered : IsOrdered d
    grows : Grows path done d
    there : has id d ≡ true

  abbrev VisitsWell : (List String → String → Search) → List String → Type 0
  VisitsWell v path =
      (done d : List String) (id : String)
      → IsOrdered done
      → has id path ≡ false
      → has id done ≡ false
      → v done id ≡ finished d
      → Visited path done d id

  visit_each-finished :
      (v : List String → String → Search) (path nexts done : List String) {d : List String}
      → VisitsWell v path
      → IsOrdered done
      → visit_each v path nexts done ≡ finished d
      → IsOrdered d × Grows path done d × Known d nexts
  unfolding visit_each
  visit_each-finished v path [] done {d = d} w o h =
      let same : done ≡ d = ground arith in
      (
        subst IsOrdered same o,
        record { more = λ y e. rw (← same) e; apart = λ y p e. rw (← same) e },
        tt,
      )
  visit_each-finished v path (next ∷ nexts) done w o h = elim (Bool-cases (has next path)) [
    | inl p ↦ absurd (ground arith)
    | inr p ↦ elim (Bool-cases (has next done)) [
      | inl q ↦
          let (o', g, k) = visit_each-finished v path nexts done w o (rw (p, q, visit_each) at h) in
          (o', g, (g.more next q, k))
      | inr q ↦ elim (Search-cases (v done next)) [
        | inl e ↦ absurd (ground arith)
        | inr (inl e) ↦ absurd (ground arith)
        | inr (inr (d', e)) ↦
            let first = w done d' next o p q e in
            let (o', g, k) =
              visit_each-finished v path nexts d' w first.ordered (rw (p, q, e, visit_each) at h) in
            (o', Grows-trans first.grows g, (g.more next first.there, k))
      ]
    ]
  ]

  visit-finished :
      (fuel : ℕ) (path : List String) → VisitsWell (λ d next. visit fuel links path d next) path
  unfolding visit
  visit-finished zero path done d id o p q h = absurd (ground arith)
  visit-finished (suc fuel) path done d id o p q h =
      elim (Search-cases (
        visit_each (λ d next. visit fuel links (id ∷ path) d next) (id ∷ path) (targets_of links id)
          done)) [
            | inl e ↦ absurd (ground arith)
            | inr (inl e) ↦ absurd (ground arith)
            | inr (inr (d', e)) ↦
                let (o', g, k) =
                  visit_each-finished (λ d next. visit fuel links (id ∷ path) d next) (id ∷ path)
                    (targets_of links id) done (visit-finished fuel (id ∷ path)) o e in
                let same : d ≡ id ∷ d' = ground arith in
                rw same (record {
                  ordered = (k, g.apart id (has_self id path) q, o');
                  grows = record {
                    more = λ y m. rw (g.more y m) (ground arith);
                    apart = λ y m n.
                        rw (other_than id y path p m, g.apart y (rw m (ground arith)) n) refl;
                  };
                  there = has_self id d';
                })
          ]

  abbrev after : String → List String → List String
  after x [] = []
  after x (y ∷ d) = if str_eq y x then d else after x d

  -- a walk along at least one link, by its end and its start
  pub data WalksTo (z : String) : String → Type 0 where
    direct : {x : String} → has z (targets_of links x) ≡ true → WalksTo z x
    onward :
        {x : String} (y : String) → has y (targets_of links x) ≡ true → WalksTo z y → WalksTo z x

  first_link : {x z : String} → WalksTo z x → (y : String) × (has y (targets_of links x) ≡ true)
  first_link {z = z} (direct k) = (z, k)
  first_link (onward y k w) = (y, k)

  target-Known : (z : String) (d zs : List String) → Known d zs → has z zs ≡ true → has z d ≡ true
  target-Known z d [] a b = absurd (ground arith)
  target-Known z d (w ∷ zs) a b = elim (Bool-cases (str_eq w z)) [
    | inl e ↦ subst (λ u. has u d ≡ true) ((eq_iff w z).0 e) a.0
    | inr e ↦ target-Known z d zs a.1 (rw e at b)
  ]

  targets_after :
      (x z : String) (d : List String)
      → IsOrdered d
      → has x d ≡ true
      → has z (targets_of links x) ≡ true
      → has z (after x d) ≡ true
  targets_after x z [] o h k = absurd (ground arith)
  targets_after x z (y ∷ d) o h k = elim (Bool-cases (str_eq y x)) [
    | inl e ↦
        let same : y ≡ x = (eq_iff y x).0 e in
        rw e (target-Known z d (targets_of links x) (rw (← same) (o.0)) k)
    | inr e ↦ rw e (targets_after x z d o.2 (rw e at h) k)
  ]

  after-IsOrdered : (x : String) (d : List String) → IsOrdered d → IsOrdered (after x d)
  after-IsOrdered x [] o = tt
  after-IsOrdered x (y ∷ d) o = elim (Bool-cases (str_eq y x)) [
    | inl e ↦ rw e (o.2)
    | inr e ↦ rw e (after-IsOrdered x d o.2)
  ]

  after-has : (x z : String) (d : List String) → has z (after x d) ≡ true → has z d ≡ true
  after-has x z [] h = h
  after-has x z (y ∷ d) h = elim (Bool-cases (str_eq y x)) [
    | inl e ↦ rw (rw e at h) (ground arith)
    | inr e ↦ rw (after-has x z d (rw e at h)) (ground arith)
  ]

  not_after_itself : (x : String) (d : List String) → IsOrdered d → has x (after x d) ≡ false
  not_after_itself x [] o = refl
  not_after_itself x (y ∷ d) o = elim (Bool-cases (str_eq y x)) [
    | inl e ↦ rw (e, ← (eq_iff y x).0 e) (o.1)
    | inr e ↦ rw e (not_after_itself x d o.2)
  ]

  Walk-after :
      {z x : String} (d : List String)
      → IsOrdered d
      → has x d ≡ true
      → WalksTo z x
      → has z (after x d) ≡ true
  Walk-after {z = z} {x = x} d o h (direct k) = targets_after x z d o h k
  Walk-after {z = z} {x = x} d o h (onward y k w) =
      after-has y z (after x d)
        (Walk-after (after x d) (after-IsOrdered x d o) (targets_after x y d o h k) w)

  -- If the search over the ids finishes, and every id that has a target is one of them, then no walk
  -- along the links leads from a node back to itself.
  pub find_cycle-finished :
      (ids : List String) {d : List String}
      → find_cycle links ids ≡ finished d
      → ((x y : String) → has y (targets_of links x) ≡ true → has x ids ≡ true)
      → (x : String) → WalksTo x x
      → ⊥
  unfolding find_cycle
  find_cycle-finished ids {d = d} h starts x w =
      let (o, g, k) =
        visit_each-finished
          (λ done id. visit (suc (length (ids ++ names_of links))) links [] done id) [] ids []
          (visit-finished (suc (length (ids ++ names_of links))) []) tt h in
      let (y, e) = first_link w in
      let there = target-Known x d ids k (starts x y e) in
      let after_itself = Walk-after d o there w in let before = not_after_itself x d o in cc
