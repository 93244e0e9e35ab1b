-- ===== src/Registry.antt =====
-- internal/engine/registry.go: the handlers by the queue that each serves.
use Prim.Native.String.{◌++◌ as str_append}
use flowforge.Base.{
  ◌≡◌, ◌⊎◌, inl, inr, String, false, Option, none, some, List, [], ◌∷◌, map, if◌then◌else◌, str_eq,
  arith, is_none, Option-cases, Error, other,
}

-- `quote` is the %q of fmt.
module _ {H : Type 0} (queue_name : H → String) (quote : String → String) where
  abbrev pub Handlers : Type 0
  Handlers = List (String × H)

  unfoldable pub get : String → Handlers → Option H
  get queue [] = none
  get queue ((q, h) ∷ handlers) = if str_eq q queue then some h else get queue handlers

  unfoldable pub register : H → Handlers → Handlers × Option Error
  unfolding get
  register h handlers =
      if is_none (get (queue_name h) handlers) then ((queue_name h, h) ∷ handlers, none) else (
        handlers,
        some (other (str_append "handler already registered for queue " (quote (queue_name h)))),
      )

  unfoldable pub queues : Handlers → List String
  queues handlers = map (λ (e : String × H). e.0) handlers

  -- Registering a handler adds it for its own queue if that queue has none, and for no other queue;
  -- if the queue has one, that handler stays and the error says so.
  pub register-get :
      (h : H) (handlers : Handlers) (queue : String)
      → ((register h handlers).1 ≡ none)
          × (get queue (register h handlers).0
              ≡ (if str_eq (queue_name h) queue then some h else get queue handlers))
          × (get (queue_name h) handlers ≡ none)
        ⊎ (is_none (register h handlers).1 ≡ false)
          × (get queue (register h handlers).0 ≡ get queue handlers)
          × (is_none (get (queue_name h) handlers) ≡ false)
  unfolding register get
  register-get h handlers queue = elim (Option-cases (get (queue_name h) handlers)) [
    | inl e ↦ inl (ground arith, ground arith, e)
    | inr (x, e) ↦ inr (ground arith, ground arith, ground arith)
  ]
