-- ===== src/Discovery.antt =====
-- internal/worker/discovery.go: the scopes that have a running worker. A map is the list of its keys;
-- cancelling a scope and starting its runner are what the refresh reports.
pub mod Exact
use Prim.Native.String.{◌++◌ as str_append}
use flowforge.Base.{
  ℕ, String, Bool, true, false, not, ◌||◌, List, [], ◌∷◌, ◌++◌, map, select, if◌then◌else◌, str_eq,
  Error, Result, ok, err, Option, none, some,
}

-- internal/domain/query.go
pub record QueueScope : Type 0 where
  pub org_id : ℕ
  pub queue : String

abbrev pub has : String → List String → Bool
has k [] = false
has k (x ∷ xs) = str_eq x k || has k xs

pub record Refreshed : Type 0 where
  pub running : List String
  pub stopped : List String
  pub started : List QueueScope

module _ (uuid_text : ℕ → String) where
  -- QueueScope.Key
  unfoldable pub key : QueueScope → String
  key s = str_append (str_append (uuid_text s.org_id) "/") s.queue

  abbrev pub keys : List QueueScope → List String
  keys = map key

  -- The map of the wanted scopes: a later scope takes the place of one with its key.
  unfoldable pub wanted_of : List QueueScope → List QueueScope
  wanted_of [] = []
  wanted_of (s ∷ scopes) =
      let rest = wanted_of scopes in if has (key s) (keys rest) then rest else s ∷ rest

  unfoldable pub refresh : List String → List QueueScope → Refreshed
  unfolding wanted_of
  refresh running scopes =
      let wanted = wanted_of scopes in
      let kept = select (λ k. has k (keys wanted)) running in
      let started = select (λ s. not (has (key s) kept)) wanted in
      record {
        running = kept ++ keys started;
        stopped = select (λ k. not (has k (keys wanted))) running;
        started = started;
      }

  -- when the source fails, nothing is stopped or started
  unfoldable pub refresh_from : List String → Result (List QueueScope) → Refreshed × Option Error
  refresh_from running (ok scopes) = (refresh running scopes, none)
  refresh_from running (err error) =
      (record { running = running; stopped = []; started = [] }, some error)
