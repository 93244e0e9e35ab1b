-- ===== src/Base/Actions.antt =====
-- Code that changes a state and may fail: a method with its error as the last result. What it has
-- changed before an error stays changed.
use mathlib.Core.Bool.{Bool, true, false}
use flowforge.Base.Tests.{if◌then◌else◌}
use flowforge.Base.Errors.{Error, Result, ok, err}

abbrev pub Action {ℓ κ} : Type ℓ → Type κ → Type (ℓ ⊔ κ)
Action S A = S → S × Result A

module _ {S : Type 0} where
  abbrev pub pure {κ} : {A : Type κ} → A → Action S A
  pure a s = (s, ok a)

  abbrev pub throw {κ} : {A : Type κ} → Error → Action S A
  throw e s = (s, err e)

  abbrev pub continue_with {κ μ} :
      {A : Type κ} {B : Type μ} → S × Result A → (A → Action S B) → S × Result B
  continue_with (s, ok a) f = f a s
  continue_with (s, err e) f = (s, err e)

  infixl 5 ◌>>=◌ ◌>>◌
  unfoldable pub ◌>>=◌ {κ μ} :
      {A : Type κ} {B : Type μ} → Action S A → (A → Action S B) → Action S B
  (m >>= f) s = continue_with (m s) f

  abbrev pub ◌>>◌ {μ} : {B : Type μ} → Action S (Unit {0}) → Action S B → Action S B
  m >> k = m >>= λ _. k

  -- an error is a value of the action that catches it
  abbrev pub attempt_action {κ} : {A : Type κ} → Action S A → Action S (Result A)
  attempt_action m s = let (s', r) = m s in (s', ok r)

  abbrev pub modify : (S → S) → Action S (Unit {0})
  modify f s = (f s, ok tt)

  -- a property of the state that the action keeps, with its error or without
  abbrev pub Keeps {κ} : (S → Type 0) → {A : Type κ} → Action S A → Type 0
  Keeps I m = (s : S) → I s → I (m s).0

  pub Keeps-bind {κ μ} :
      (I : S → Type 0) {A : Type κ} {B : Type μ} (m : Action S A) (f : A → Action S B)
      → Keeps I m
      → ((a : A) → Keeps I (f a))
      → Keeps I (m >>= f)
  unfolding ◌>>=◌
  Keeps-bind I {A = A} m f k l s i = go (m s) (k s i)
    where
      go : (p : S × Result A) → I p.0 → I (continue_with p f).0
      go (s', ok a) j = l a s' j
      go (s', err e) j = j

  pub Keeps-if {κ} :
      (I : S → Type 0) {A : Type κ} (b : Bool) (m k : Action S A)
      → Keeps I m
      → Keeps I k
      → Keeps I (if b then m else k)
  Keeps-if I true m k h l = h
  Keeps-if I false m k h l = l
