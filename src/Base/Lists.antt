-- ===== src/Base/Lists.antt =====
-- Lists under native numbers, predicates by recursion, and a table of rows that is searched and
-- updated by a test.
use Prim.Native.Nat.{ℕ, zero, suc}
use mathlib.Core.Path.{◌≡◌, refl, sym, subst}
use mathlib.Core.Logic.{◌⊎◌, inl, inr}
use mathlib.Core.Bool.{Bool, true, false}
use mathlib.Core.Option.{Option, none, some}
use mathlib.Core.List.{List, [], ◌∷◌, ◌++◌, Memᴰ, Forall₂}
use native.Mathlib.Omega.{arith}
use flowforge.Base.Tests.{if◌then◌else◌, Bool-cases}

module _ {ℓ} {A : Type ℓ} where
  abbrev pub length : List A → ℕ
  length [] = 0
  length (x ∷ xs) = suc (length xs)

  abbrev pub take : ℕ → List A → List A
  take zero xs = []
  take (suc n) [] = []
  take (suc n) (x ∷ xs) = x ∷ take n xs

  abbrev pub All {κ} : (A → Type κ) → List A → Type κ
  All P [] = Unit
  All P (x ∷ xs) = P x × All P xs

  -- SELECT … WHERE p, read for its first row
  unfoldable pub find : (A → Bool) → List A → Option A
  find p [] = none
  find p (x ∷ xs) = if p x then some x else find p xs

  unfoldable pub select : (A → Bool) → List A → List A
  select p [] = []
  select p (x ∷ xs) = if p x then x ∷ select p xs else select p xs

  -- UPDATE … SET f WHERE p
  unfoldable pub update : (A → Bool) → (A → A) → List A → List A
  update p f [] = []
  update p f (x ∷ xs) = (if p x then f x else x) ∷ update p f xs

  -- the number of rows that the update affects
  unfoldable pub affected : (A → Bool) → List A → ℕ
  affected p [] = 0
  affected p (x ∷ xs) = if p x then suc (affected p xs) else affected p xs

  -- ORDER BY, where `before a b` says that a comes before b
  unfoldable pub insert_by : (A → A → Bool) → A → List A → List A
  insert_by before a [] = a ∷ []
  insert_by before a (x ∷ xs) =
      let rest = insert_by before a xs in if before x a then x ∷ rest else a ∷ x ∷ xs

  unfoldable pub order_by : (A → A → Bool) → List A → List A
  unfolding insert_by
  order_by before [] = []
  order_by before (x ∷ xs) = insert_by before x (order_by before xs)

module _ {ℓ} {A : Type ℓ} where
  pub find-mem :
      (p : A → Bool) (xs : List A) {a : A} → find p xs ≡ some a → Memᴰ a xs × (p a ≡ true)
  unfolding find
  find-mem p [] h = cc
  find-mem p (x ∷ xs) {a = a} h = elim (Bool-cases (p x)) [
    | inl e ↦
        let same : x ≡ a = ground arith in (Memᴰ.head (sym same), subst (λ y. p y ≡ true) same e)
    | inr e ↦ let (m, q) = find-mem p xs {a = a} (rw (e, find) at h) in (Memᴰ.tail m, q)
  ]

  pub find-none : (p : A → Bool) (xs : List A) → find p xs ≡ none → All (λ x. p x ≡ false) xs
  unfolding find
  find-none p [] h = tt
  find-none p (x ∷ xs) h = elim (Bool-cases (p x)) [
    | inl e ↦ ground arith
    | inr e ↦ (e, find-none p xs (rw (e, find) at h))
  ]

  pub find_of_none : (p : A → Bool) (xs : List A) → All (λ x. p x ≡ false) xs → find p xs ≡ none
  unfolding find
  find_of_none p [] h = refl
  find_of_none p (x ∷ xs) h = rw (h.0) (find_of_none p xs h.1)

  pub All-mem {κ} : (P : A → Type κ) {a : A} (xs : List A) → All P xs → Memᴰ a xs → P a
  All-mem P [] h m = elim m [ ]
  All-mem P (x ∷ xs) h (Memᴰ.head e) = subst P (sym e) h.0
  All-mem P (x ∷ xs) h (Memᴰ.tail m) = All-mem P xs h.1 m

  pub All_of_mem {κ} : (P : A → Type κ) (xs : List A) → ((a : A) → Memᴰ a xs → P a) → All P xs
  All_of_mem P [] h = tt
  All_of_mem P (x ∷ xs) h = (h x (Memᴰ.head refl), All_of_mem P xs (λ a m. h a (Memᴰ.tail m)))

  pub All-append {κ} : (P : A → Type κ) (xs ys : List A) → All P xs → All P ys → All P (xs ++ ys)
  All-append P [] ys hx hy = hy
  All-append P (x ∷ xs) ys hx hy = (hx.0, All-append P xs ys hx.1 hy)

  -- A property of every row survives an update that keeps it on the rows that it changes.
  pub All-update {κ} :
      (P : A → Type κ) (p : A → Bool) (f : A → A) (xs : List A)
      → ((a : A) → Memᴰ a xs → p a ≡ true → P a → P (f a))
      → All P xs
      → All P (update p f xs)
  unfolding update
  All-update P p f [] k h = tt
  All-update P p f (x ∷ xs) k h = (
    elim (Bool-cases (p x)) [ inl e ↦ rw e (k x (Memᴰ.head refl) e h.0) | inr e ↦ rw e h.0 ],
    All-update P p f xs (λ a m. k a (Memᴰ.tail m)) h.1,
  )

  pub affected_zero : (p : A → Bool) (xs : List A) → All (λ x. p x ≡ false) xs → affected p xs ≡ 0
  unfolding affected
  affected_zero p [] h = refl
  affected_zero p (x ∷ xs) h = rw (h.0) (affected_zero p xs h.1)

  -- An update relates each row to itself or to what the update makes of it.
  pub update-Forall₂ {κ} :
      (R : A → A → Type κ) (p : A → Bool) (f : A → A) (xs : List A)
      → ((a : A) → Memᴰ a xs → p a ≡ true → R a (f a))
      → Forall₂ (λ a b. (b ≡ a) ⊎ R a b) xs (update p f xs)
  unfolding update
  update-Forall₂ R p f [] h = Forall₂.nil
  update-Forall₂ R p f (x ∷ xs) h =
      Forall₂.cons
        (elim (Bool-cases (p x)) [
          | inl e ↦ rw e (inr (h x (Memᴰ.head refl) e))
          | inr e ↦ rw e (inl refl)
        ])
        (update-Forall₂ R p f xs (λ a m. h a (Memᴰ.tail m)))

  pub Forall₂-map {κ μ} :
      {R : A → A → Type κ} {S : A → A → Type μ} {xs ys : List A}
      → ((a b : A) → R a b → S a b)
      → Forall₂ R xs ys
      → Forall₂ S xs ys
  Forall₂-map h Forall₂.nil = Forall₂.nil
  Forall₂-map h (Forall₂.cons {a = x} {b = y} r w) = Forall₂.cons (h x y r) (Forall₂-map h w)

  pub All-Forall₂ {κ μ} :
      (P : A → Type κ) {R : A → A → Type μ} {xs ys : List A}
      → ((a b : A) → R a b → P a → P b)
      → Forall₂ R xs ys
      → All P xs
      → All P ys
  All-Forall₂ P h Forall₂.nil k = tt
  All-Forall₂ P h (Forall₂.cons {a = x} {b = y} r w) k = (h x y r k.0, All-Forall₂ P h w k.1)
