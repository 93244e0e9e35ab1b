-- ===== src/Broker/Order.antt =====
-- The order in which the broker hands tasks out: by priority, then first in, first out.

use flowforge.Base.{
  Memᴰ, subst, take, ◌/◌, ◌||◌, is_negative, ◌==◌, ℕ, ◌+◌, ◌≤◌, ◌<◌, ◌≡◌, ◌↔◌, ◌⊎◌, refl, inl, inr,
  false, some, List, [], ◌∷◌, arith, All, Bool-cases, ltb,
}
use flowforge.Broker.{
  BrokerMessage, Entry, ZSet, QueueState, BrokerCall, zrem, insert_entry, zadd, same_message, score,
  push_pending, enqueue, dequeue, ack, nack, enqueue_delayed, move_to_dead_letter, promote_all,
  promote_due_delayed, remove, call, due_entries, calls, enqueued, dequeued, acked, nacked,
  scheduled, buried, promoted, removed, priority_bucket_size,
}

-- One task is ahead of another exactly when its priority is higher, or when their priorities are
-- equal and it was pushed first, while fewer than 10 ^ 12 tasks have been pushed on the queue.
pub score-lt_iff :
    (p q m n : ℕ)
    → p ≤ 9
    → q ≤ 9
    → m < priority_bucket_size
    → n < priority_bucket_size
    → (score p m < score q n) ↔ ((q < p) ⊎ ((p ≡ q) × (m < n)))
unfolding score
score-lt_iff p q m n hp hq hm hn = ground arith

-- ascending scores
abbrev pub IsOrdered : ZSet → Type 0
IsOrdered [] = Unit
IsOrdered (e ∷ z) = All (λ (f : Entry). e.1 ≤ f.1) z × IsOrdered z

zrem-All : (P : Entry → Type 0) (m : BrokerMessage) (z : ZSet) → All P z → All P (zrem m z)
unfolding zrem
zrem-All P m [] h = tt
zrem-All P m (e ∷ z) h = elim (Bool-cases (same_message e.0 m)) [
  | inl b ↦ rw b (zrem-All P m z h.1)
  | inr b ↦ rw b (h.0, zrem-All P m z h.1)
]

zrem-IsOrdered : (m : BrokerMessage) (z : ZSet) → IsOrdered z → IsOrdered (zrem m z)
unfolding zrem
zrem-IsOrdered m [] h = tt
zrem-IsOrdered m (e ∷ z) h = elim (Bool-cases (same_message e.0 m)) [
  | inl b ↦ rw b (zrem-IsOrdered m z h.1)
  | inr b ↦ rw b (zrem-All (λ (f : Entry). e.1 ≤ f.1) m z h.0, zrem-IsOrdered m z h.1)
]

insert_entry-All :
    (P : Entry → Type 0) (e : Entry) (z : ZSet) → P e → All P z → All P (insert_entry e z)
unfolding insert_entry
insert_entry-All P e [] p h = (p, tt)
insert_entry-All P e (f ∷ z) p h = elim (Bool-cases (ltb e.1 f.1)) [
  | inl b ↦ rw b (p, h)
  | inr b ↦ rw b (h.0, insert_entry-All P e z p h.1)
]

All-le :
    (a b : ℕ) (z : ZSet) → a ≤ b → All (λ (f : Entry). b ≤ f.1) z → All (λ (f : Entry). a ≤ f.1) z
All-le a b [] h k = tt
All-le a b (f ∷ z) h k = (omega (arith, k.0), All-le a b z h k.1)

insert_entry-IsOrdered : (e : Entry) (z : ZSet) → IsOrdered z → IsOrdered (insert_entry e z)
unfolding insert_entry
insert_entry-IsOrdered e [] h = (tt, tt)
insert_entry-IsOrdered e (f ∷ z) h = elim (Bool-cases (ltb e.1 f.1)) [
  | inl b ↦ let le : e.1 ≤ f.1 = ground arith in rw b ((le, All-le e.1 f.1 z le h.0), h)
  | inr b ↦
      let le : f.1 ≤ e.1 = ground arith in
      rw b (insert_entry-All (λ (g : Entry). f.1 ≤ g.1) e z le h.0, insert_entry-IsOrdered e z h.1)
]

zadd-IsOrdered : (s : ℕ) (m : BrokerMessage) (z : ZSet) → IsOrdered z → IsOrdered (zadd s m z)
unfolding zadd
zadd-IsOrdered s m z h = insert_entry-IsOrdered (m, s) (zrem m z) (zrem-IsOrdered m z h)

push_pending-IsOrdered :
    (m : BrokerMessage) (p : ℕ) (q : QueueState)
    → IsOrdered q.pending
    → IsOrdered (push_pending m p q).pending
unfolding push_pending
push_pending-IsOrdered m p q h = zadd-IsOrdered (score p (q.sequence + 1)) m q.pending h

promote_all-IsOrdered :
    (z : ZSet) (q : QueueState) → IsOrdered q.pending → IsOrdered (promote_all z q).pending
unfolding promote_all
promote_all-IsOrdered [] q h = h
promote_all-IsOrdered (e ∷ z) q h =
    promote_all-IsOrdered z _
      (push_pending-IsOrdered e.0 _ (record q { delayed = zrem e.0 q.delayed }) h)

ZSet-cases : (z : ZSet) → (z ≡ []) ⊎ ((e : Entry) × (w : ZSet) × (z ≡ e ∷ w))
ZSet-cases [] = inl refl
ZSet-cases (e ∷ z) = inr (e, z, refl)

call-IsOrdered :
    (c : BrokerCall) (q : QueueState) → IsOrdered q.pending → IsOrdered (call c q).pending
unfolding call enqueue dequeue ack nack enqueue_delayed move_to_dead_letter promote_due_delayed
    remove push_pending
call-IsOrdered (enqueued t) q h = zadd-IsOrdered _ _ q.pending h
call-IsOrdered dequeued q h = dequeue-IsOrdered q h
  where
    dequeue-IsOrdered : (q : QueueState) → IsOrdered q.pending → IsOrdered (dequeue q).0.pending
    dequeue-IsOrdered q h = elim (ZSet-cases q.pending) [
      | inl e ↦ rw (e, dequeue) h
      | inr (x, z, e) ↦ rw (e, dequeue) (zrem-IsOrdered x.0 q.pending h)
    ]
call-IsOrdered (acked org id) q h = h
call-IsOrdered (nacked org id delay now) q h = elim (Bool-cases (delay == 0 || is_negative delay)) [
  | inl e ↦ rw e (zadd-IsOrdered _ _ q.pending h)
  | inr e ↦ rw e h
]
call-IsOrdered (scheduled t delay now) q h = h
call-IsOrdered (buried org id) q h = zrem-IsOrdered _ q.pending h
call-IsOrdered (promoted now) q h =
    promote_all-IsOrdered (take 100 (due_entries (now / 1000000) q.delayed)) q h
call-IsOrdered (removed org id) q h = zrem-IsOrdered _ q.pending h

calls-IsOrdered :
    (cs : List BrokerCall) (q : QueueState) → IsOrdered q.pending → IsOrdered (calls cs q).pending
unfolding calls
calls-IsOrdered [] q h = h
calls-IsOrdered (c ∷ cs) q h = calls-IsOrdered cs (call c q) (call-IsOrdered c q h)

zrem-absent :
    (m : BrokerMessage) (z : ZSet) → All (λ (f : Entry). same_message f.0 m ≡ false) (zrem m z)
unfolding zrem
zrem-absent m [] = tt
zrem-absent m (e ∷ z) = elim (Bool-cases (same_message e.0 m)) [
  | inl b ↦ rw b (zrem-absent m z)
  | inr b ↦ rw b (b, zrem-absent m z)
]

-- what a dequeue did with the message that it returned
pub record IsFirst (q : QueueState) (m : BrokerMessage) (after : QueueState) : Type 0 where
  rank : ℕ
  there : Memᴰ (m, rank) q.pending
  least : All (λ (f : Entry). rank ≤ f.1) q.pending
  taken : All (λ (f : Entry). same_message f.0 m ≡ false) after.pending

least_first : (e : Entry) (z : ZSet) → IsOrdered (e ∷ z) → All (λ (f : Entry). e.1 ≤ f.1) (e ∷ z)
least_first e z h = (omega arith, h.0)

-- After any history of calls on a queue whose pending tasks are in the order of their scores, a
-- task that is dequeued is one of the pending tasks with the least score, and is pending no more,
-- so that no other dequeue returns it before it is pushed again.
pub dequeue-IsFirst :
    (cs : List BrokerCall) (q : QueueState) (m : BrokerMessage)
    → IsOrdered q.pending
    → (dequeue (calls cs q)).1 ≡ some m
    → IsFirst (calls cs q) m (dequeue (calls cs q)).0
unfolding dequeue
dequeue-IsFirst cs q m h k = elim (ZSet-cases (calls cs q).pending) [
  | inl e ↦ cc (rw (e, dequeue) at k)
  | inr (x, z, e) ↦
      let same : x.0 ≡ m = ground (arith, rw (e, dequeue) at k) in
      let order = rw e at (calls-IsOrdered cs q h) in
      subst (λ n. IsFirst (calls cs q) n (dequeue (calls cs q)).0) same
        (record {
          rank = x.1;
          there = rw e (Memᴰ.head refl);
          least = rw e (least_first x z order);
          taken = rw (e, dequeue) (zrem-absent x.0 (calls cs q).pending);
        })
]
