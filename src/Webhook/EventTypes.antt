-- ===== src/Webhook/EventTypes.antt =====
-- normalizeWebhookEventTypes: the event types of an endpoint are valid, and each stands once.
use flowforge.Base.{
  ◌≡◌, refl, inl, inr, Bool, true, false, ◌||◌, List, [], ◌∷◌, ◌++◌, arith, All, Result, ok, err,
  invalid_input, Bool-cases, if◌then◌else◌,
}
use flowforge.Webhook.{
  WebhookEventType, valid, same_type, contains, normalize_from, normalize_webhook_event_types,
}

contains-snoc :
    (t u : WebhookEventType) (ts : List WebhookEventType)
    → contains t (ts ++ u ∷ []) ≡ (contains t ts || same_type t u)
unfolding contains
contains-snoc t u [] = ground arith
contains-snoc t u (x ∷ ts) = ground (arith, contains-snoc t u ts)

-- no type stands twice
abbrev pub IsDistinct : List WebhookEventType → Type 0
IsDistinct [] = Unit
IsDistinct (t ∷ ts) = (contains t ts ≡ false) × IsDistinct ts

same_type_symm : (t u : WebhookEventType) → same_type t u ≡ same_type u t
same_type_symm t u = ground arith

IsDistinct-snoc :
    (t : WebhookEventType) (ts : List WebhookEventType)
    → contains t ts ≡ false
    → IsDistinct ts
    → IsDistinct (ts ++ t ∷ [])
unfolding contains
IsDistinct-snoc t [] h d = (refl, tt)
IsDistinct-snoc t (u ∷ ts) h d = (
  ground (arith, contains-snoc u t ts, same_type_symm t u),
  IsDistinct-snoc t ts (ground arith) d.1,
)

All-snoc :
    (P : WebhookEventType → Type 0) (t : WebhookEventType) (ts : List WebhookEventType)
    → P t
    → All P ts
    → All P (ts ++ t ∷ [])
All-snoc P t [] p h = (p, tt)
All-snoc P t (u ∷ ts) p h = (h.0, All-snoc P t ts p h.1)

abbrev pub IsValid : WebhookEventType → Type 0
IsValid t = valid t ≡ true

contains_same :
    (t u : WebhookEventType) (ts : List WebhookEventType)
    → same_type t u ≡ true
    → contains t ts ≡ true
    → contains u ts ≡ true
unfolding contains
contains_same t u [] e h = cc
contains_same t u (x ∷ ts) e h = ground (arith, contains_same t u ts)

-- what the loop makes of its result
record Normal (before values after : List WebhookEventType) : Type 0 where
  distinct : IsDistinct before → IsDistinct after
  asked : All IsValid values
  exact : (t : WebhookEventType) → contains t after ≡ (contains t before || contains t values)

-- the result after one round of the loop
abbrev added : List WebhookEventType → WebhookEventType → List WebhookEventType
added before u = if contains u before then before else before ++ u ∷ []

added-exact :
    (before : List WebhookEventType) (u t : WebhookEventType)
    → contains t (added before u) ≡ (contains t before || same_type t u)
added-exact before u t = elim (Bool-cases (contains u before)) [
  | inl old ↦ rw old (ground (arith, contains_same u t before, same_type_symm t u))
  | inr new ↦ rw new (contains-snoc t u before)
]

added-IsDistinct :
    (before : List WebhookEventType) (u : WebhookEventType)
    → IsDistinct before
    → IsDistinct (added before u)
added-IsDistinct before u d = elim (Bool-cases (contains u before)) [
  | inl old ↦ rw old d
  | inr new ↦ rw new (IsDistinct-snoc u before new d)
]

normalize_from-Normal :
    (values before : List WebhookEventType) {after : List WebhookEventType}
    → normalize_from before values ≡ ok after
    → Normal before values after
unfolding normalize_from
normalize_from-Normal [] before {after = after} h =
    let same : before ≡ after = cc in
    record {
      distinct = λ d. rw same at d;
      asked = tt;
      exact = λ t. unfold contains in ground arith;
    }
normalize_from-Normal (u ∷ values) before {after = after} h =
    let (fits, rest) = accepted (valid u) _ h in
    let later = normalize_from-Normal values (added before u) rest in
    record {
      distinct = λ d. later.distinct (added-IsDistinct before u d);
      asked = (fits, later.asked);
      exact = λ t. unfold contains in ground (arith, later.exact t, added-exact before u t);
    }
  where
    accepted :
        (b : Bool) (r : Result (List WebhookEventType))
        → (if b then r else err invalid_input) ≡ ok after
        → (b ≡ true) × (r ≡ ok after)
    accepted b r e = ground arith

-- The list that is accepted names each type once, names exactly the types that were asked for, and
-- each of these is one that an endpoint may subscribe to.
pub normalize-eq-ok :
    (values after : List WebhookEventType)
    → normalize_webhook_event_types values ≡ ok after
    → IsDistinct after
      × All IsValid values
      × ((t : WebhookEventType) → contains t after ≡ contains t values)
unfolding normalize_webhook_event_types
normalize-eq-ok [] after h = cc
normalize-eq-ok (u ∷ values) after h =
    let n = normalize_from-Normal (u ∷ values) [] h in
    (n.distinct tt, n.asked, λ t. unfold contains in n.exact t)

normalize_from_accepts :
    (values before : List WebhookEventType)
    → All IsValid values
    → (after : List WebhookEventType) × (normalize_from before values ≡ ok after)
unfolding normalize_from
normalize_from_accepts [] before h = (before, refl)
normalize_from_accepts (u ∷ values) before h =
    let (after, e) = normalize_from_accepts values (added before u) h.1 in (after, rw h.0 e)

-- A list that is not empty and holds valid types only is accepted.
pub normalize_accepts :
    (u : WebhookEventType) (values : List WebhookEventType)
    → All IsValid (u ∷ values)
    → (after : List WebhookEventType) × (normalize_webhook_event_types (u ∷ values) ≡ ok after)
unfolding normalize_webhook_event_types
normalize_accepts u values h = normalize_from_accepts (u ∷ values) [] h
