-- ===== src/Tests/OfBroker.antt =====
-- The theorems on the broker, the scope discovery and the handler registry, for sample values.
use flowforge.Base.{
  ◌≡◌, ◌<◌, ◌↔◌, ◌⊎◌, refl, ℕ, String, false, not, ◌&&◌, none, some, [], ◌∷◌, arith, is_none,
  if◌then◌else◌, str_eq,
}
use flowforge.Task.{new_task}
use flowforge.Broker.{QueueState, enqueued, score, dequeue, calls, message, enqueue}
use flowforge.Broker.Order.{score-lt_iff, IsFirst, dequeue-IsFirst}
use flowforge.Discovery.{QueueScope, has, keys, refresh}
use flowforge.Discovery.Exact.{refresh-exact}
use flowforge.Registry.{get, register, register-get}
use flowforge.Tests.Samples.{mail}

abbrev five : ℕ
five = 5

score-lt_iff_example : (score 5 20 < score 3 10) ↔ ((3 < 5) ⊎ ((five ≡ 3) × (20 < 10)))
score-lt_iff_example =
    score-lt_iff 5 3 20 10 (omega arith) (omega arith) (omega arith) (omega arith)

abbrev idle : QueueState
idle = record {
  pending = [];
  processing = [];
  delayed = [];
  priorities = [];
  sequence = 0;
  dlq = [];
}

mail_dequeued : (dequeue (calls (enqueued mail ∷ []) idle)).1 ≡ some (message 1 7)
unfolding dequeue calls enqueue new_task
mail_dequeued = refl

dequeue-IsFirst_example :
    IsFirst
      (calls (enqueued mail ∷ []) idle)
      (message 1 7)
      (dequeue (calls (enqueued mail ∷ []) idle)).0
dequeue-IsFirst_example = dequeue-IsFirst (enqueued mail ∷ []) idle (message 1 7) tt mail_dequeued

abbrev uuid_text : ℕ → String
uuid_text n = "org"

abbrev mails : QueueScope
mails = record { org_id = 1; queue = "mail" }

refresh-exact_example :
    (has "org/mail" (refresh uuid_text ("org/old" ∷ []) (mails ∷ [])).running
      ≡ has "org/mail" (keys uuid_text (mails ∷ [])))
    × (has "org/mail" (refresh uuid_text ("org/old" ∷ []) (mails ∷ [])).stopped
        ≡ (has "org/mail" ("org/old" ∷ []) && not (has "org/mail" (keys uuid_text (mails ∷ [])))))
refresh-exact_example = refresh-exact uuid_text ("org/old" ∷ []) (mails ∷ []) "org/mail"

abbrev same : String → String
same s = s

register-get_example :
    ((register same same "mail" []).1 ≡ none)
      × (get same same "mail" (register same same "mail" []).0
          ≡ (if str_eq "mail" "mail" then some "mail" else none))
      × (get same same "mail" [] ≡ none)
    ⊎ (is_none (register same same "mail" []).1 ≡ false)
      × (get same same "mail" (register same same "mail" []).0 ≡ none)
      × (is_none (get same same "mail" []) ≡ false)
unfolding get
register-get_example = register-get same same "mail" [] "mail"
