-- ===== src/Validation/Graph.antt =====
-- internal/usecase/workflow_validation.go: the two searches over the edges between known nodes, the
-- queue that finds the nodes reachable from a trigger, and the depth-first search for a cycle.
use flowforge.Base.{
  ℕ, zero, suc, ◌+◌, String, Option, none, some, List, [], ◌∷◌, ◌++◌, length, if◌then◌else◌, str_eq,
}
use flowforge.Discovery.{has}

-- an edge whose two ends are known nodes
pub record Link : Type 0 where
  pub start : String
  pub end : String

-- adjacency[id]
unfoldable pub targets_of : List Link → String → List String
targets_of [] id = []
targets_of (l ∷ links) id =
    let rest = targets_of links id in if str_eq l.start id then l.end ∷ rest else rest

-- the queue, and the nodes that are marked reachable
pub record Reached : Type 0 where
  pub queue : List String
  pub reachable : List String

-- the loop over the neighbours of the node that has left the queue
unfoldable pub mark_targets : List String → Reached → Reached
mark_targets [] r = r
mark_targets (next ∷ nexts) r = mark_targets nexts (
    if has next r.reachable
    then r
    else record { queue = r.queue ++ next ∷ []; reachable = next ∷ r.reachable })

-- The loop over the queue, by the rounds that are left; none if they do not suffice.
unfoldable pub reach : ℕ → List Link → (queue reachable : List String) → Option (List String)
unfolding mark_targets targets_of
reach fuel links [] reachable = some reachable
reach zero links (current ∷ queue) reachable = none
reach (suc fuel) links (current ∷ queue) reachable =
    let r =
      mark_targets (targets_of links current) (record { queue = queue; reachable = reachable }) in
    reach fuel links r.queue r.reachable

-- A node enters the queue as a trigger, or as the target of a link.
unfoldable pub reachable_from : List Link → List String → Option (List String)
unfolding reach
reachable_from links triggers = reach (length triggers + length links) links triggers triggers

-- How the depth-first search ends. The nodes of state `visited` are the list of `finished`, the last
-- first; those of state `visiting` are the path of the calls.
pub data Search : Type 0 where
  cyclic : Search
  finished : List String → Search
  out_of_fuel : Search

-- the loop over the neighbours
unfoldable pub visit_each :
    (List String → String → Search) → (path : List String) → List String → List String → Search
visit_each visit path [] done = finished done
visit_each visit path (next ∷ nexts) done =
    let skip = visit_each visit path nexts done in
    let go = λ (d : List String). visit_each visit path nexts d in
    if has next path
    then cyclic
    else if has next done
    then skip
    else elim (visit done next) [ finished d ↦ go d | cyclic ↦ cyclic | out_of_fuel ↦ out_of_fuel ]

-- `visit`, by the depth that is left
unfoldable pub visit : ℕ → List Link → (path done : List String) → String → Search
unfolding visit_each targets_of
visit zero links path done id = out_of_fuel
visit (suc fuel) links path done id =
    elim (visit_each (λ d next. visit fuel links (id ∷ path) d next) (id ∷ path)
      (targets_of links id) done) [
        | finished d ↦ finished (id ∷ d)
        | cyclic ↦ cyclic
        | out_of_fuel ↦ out_of_fuel
      ]

-- the ids of all nodes, and the ends of the links
unfoldable pub names_of : List Link → List String
names_of [] = []
names_of (l ∷ links) = l.start ∷ l.end ∷ names_of links

-- The search from every node that is not visited yet: no call is deeper than the number of names.
unfoldable pub find_cycle : List Link → (ids : List String) → Search
unfolding visit visit_each names_of
find_cycle links ids =
    visit_each (λ done id. visit (suc (length (ids ++ names_of links))) links [] done id) [] ids []
