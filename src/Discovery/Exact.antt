-- ===== src/Discovery/Exact.antt =====
-- After a refresh the scopes that run are those that the source lists.
use flowforge.Base.{
  ℕ, ◌≡◌, refl, ap, String, Bool, true, not, ◌||◌, ◌&&◌, List, [], ◌∷◌, ◌++◌, select, arith, str_eq,
  eq_iff,
}
use flowforge.Discovery.{QueueScope, has, key, keys, wanted_of, refresh}

has-append : (k : String) (xs ys : List String) → has k (xs ++ ys) ≡ (has k xs || has k ys)
has-append k [] ys = refl
has-append k (x ∷ xs) ys = ground (arith, has-append k xs ys)

same_test : (p : String → Bool) (x k : String) → str_eq x k ≡ true → p x ≡ p k
same_test p x k h = ap p ((eq_iff x k).0 h)

has-select :
    (p : String → Bool) (k : String) (xs : List String) → has k (select p xs) ≡ (has k xs && p k)
unfolding select
has-select p k [] = refl
has-select p k (x ∷ xs) = ground (arith, has-select p k xs, same_test p x k)

module _ (uuid_text : ℕ → String) where
  has-keys :
      (p : String → Bool) (k : String) (ss : List QueueScope)
      → has k (keys uuid_text (select (λ s. p (key uuid_text s)) ss))
        ≡ (has k (keys uuid_text ss) && p k)
  unfolding select
  has-keys p k [] = refl
  has-keys p k (s ∷ ss) = ground (arith, has-keys p k ss, same_test p (key uuid_text s) k)

  has-wanted_of :
      (k : String) (ss : List QueueScope)
      → has k (keys uuid_text (wanted_of uuid_text ss)) ≡ has k (keys uuid_text ss)
  unfolding wanted_of
  has-wanted_of k [] = refl
  has-wanted_of k (s ∷ ss) = ground (
    arith,
    has-wanted_of k ss,
    same_test (λ x. has x (keys uuid_text (wanted_of uuid_text ss))) (key uuid_text s) k,
  )

  -- After a refresh a scope is running exactly when the source listed it; those stopped were running
  -- and are not listed.
  pub refresh-exact :
      (running : List String) (scopes : List QueueScope) (k : String)
      → (has k (refresh uuid_text running scopes).running ≡ has k (keys uuid_text scopes))
        × (has k (refresh uuid_text running scopes).stopped
            ≡ (has k running && not (has k (keys uuid_text scopes))))
  unfolding refresh
  refresh-exact running scopes k =
      let wanted = wanted_of uuid_text scopes in
      let kept = select (λ x. has x (keys uuid_text wanted)) running in
      (
        ground (
          arith,
          has-append k kept
              (keys uuid_text (select (λ s. not (has (key uuid_text s) kept)) wanted)),
          has-select (λ x. has x (keys uuid_text wanted)) k running,
          has-keys (λ x. not (has x kept)) k wanted,
          has-wanted_of k scopes,
        ),
        ground (
          arith,
          has-select (λ x. not (has x (keys uuid_text wanted))) k running,
          has-wanted_of k scopes,
        ),
      )
