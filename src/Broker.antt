-- ===== src/Broker.antt =====
-- internal/broker/redis/redis_broker.go: the Redis keys of one organisation's queue and the scripts
-- and pipelines that change them, each of which Redis runs alone. A sorted set is the list of its
-- members with their scores, in ascending order; scores below 2 ^ 53 are exact.
pub mod Order
use flowforge.Base.{
  ℕ, ◌+◌, ◌-◌, ◌*◌, ◌/◌, Bool, true, false, ◌&&◌, ◌||◌, not, Option, none, some, List, [], ◌∷◌,
  Duration, Time, ltb, leb, ◌==◌, if◌then◌else◌, is_negative, take, Result, ok, err, Error, other,
  queue_empty, add_time,
}
use flowforge.Task.{Task}

pub record BrokerMessage : Type 0 where
  pub org_id : ℕ
  pub task_id : ℕ

-- a member of a sorted set and its score
abbrev pub Entry : Type 0
Entry = BrokerMessage × ℕ

abbrev pub ZSet : Type 0
ZSet = List Entry

abbrev pub same_message : BrokerMessage → BrokerMessage → Bool
same_message a b = a.org_id == b.org_id && a.task_id == b.task_id

unfoldable pub zrem : BrokerMessage → ZSet → ZSet
zrem m [] = []
zrem m ((n, s) ∷ z) = let rest = zrem m z in if same_message n m then rest else (n, s) ∷ rest

unfoldable pub insert_entry : Entry → ZSet → ZSet
insert_entry e [] = e ∷ []
insert_entry e (f ∷ z) = if ltb e.1 f.1 then e ∷ f ∷ z else f ∷ insert_entry e z

unfoldable pub zadd : ℕ → BrokerMessage → ZSet → ZSet
unfolding zrem insert_entry
zadd score m z = insert_entry (m, score) (zrem m z)

-- ZRANGEBYSCORE -inf max LIMIT 0 100
unfoldable pub due_entries : ℕ → ZSet → ZSet
due_entries max [] = []
due_entries max (e ∷ z) = let rest = due_entries max z in if leb e.1 max then e ∷ rest else []

-- the hash of the priorities
abbrev pub Priorities : Type 0
Priorities = List (BrokerMessage × ℕ)

unfoldable pub hdel : BrokerMessage → Priorities → Priorities
hdel m [] = []
hdel m ((n, p) ∷ h) = let rest = hdel m h in if same_message n m then rest else (n, p) ∷ rest

-- `tonumber(HGET …) or 0`
unfoldable pub hget_or_zero : BrokerMessage → Priorities → ℕ
hget_or_zero m [] = 0
hget_or_zero m ((n, p) ∷ h) = if same_message n m then p else hget_or_zero m h

unfoldable pub lrem : BrokerMessage → List BrokerMessage → List BrokerMessage
lrem m [] = []
lrem m (n ∷ l) = let rest = lrem m l in if same_message n m then rest else n ∷ rest

pub record QueueState : Type 0 where
  pub pending : ZSet
  pub processing : ZSet
  pub delayed : ZSet
  pub priorities : Priorities
  pub sequence : ℕ
  pub dlq : List BrokerMessage

abbrev pub priority_bucket_size : ℕ
priority_bucket_size = 1000000000000

-- an int64 priority, between 0 and 9
unfoldable pub normalize_priority : ℕ → ℕ
normalize_priority p = if is_negative p then 0 else if ltb 9 p then 9 else p

unfoldable pub score : (priority sequence : ℕ) → ℕ
score priority sequence = (9 - priority) * priority_bucket_size + sequence

abbrev pub message : ℕ → ℕ → BrokerMessage
message org id = record { org_id = org; task_id = id }

-- uuid.Nil is 0
unfoldable pub parse_message : BrokerMessage → (expected_org : ℕ) → Result ℕ
parse_message m expected_org =
    if not (m.org_id == expected_org) || m.task_id == 0
    then err (other "broker message tenant mismatch")
    else ok m.task_id

-- the end of three scripts: the next sequence number, and the member pending under its score
unfoldable pub push_pending : BrokerMessage → ℕ → QueueState → QueueState
unfolding zadd score
push_pending m priority q =
    let sequence = q.sequence + 1 in
    record q { sequence = sequence; pending = zadd (score priority sequence) m q.pending }

unfoldable pub enqueue : Task → QueueState → QueueState
unfolding push_pending hdel normalize_priority
enqueue t q =
    let m = message t.org_id t.id in
    let p = normalize_priority t.priority in
    push_pending m p (record q { priorities = (m, p) ∷ hdel m q.priorities })

-- dequeueScript
unfoldable pub dequeue : QueueState → QueueState × Option BrokerMessage
unfolding zrem zadd
dequeue q = elim q.pending [
  | [] ↦ (q, none)
  | e ∷ z ↦
      (record q { pending = zrem e.0 q.pending; processing = zadd e.1 e.0 q.processing }, some e.0)
]

-- one round of the loop of Dequeue: nothing is there, or the member's task id
unfoldable pub dequeue_once : (org : ℕ) → QueueState → QueueState × Option (Result ℕ)
unfolding dequeue parse_message
dequeue_once org q =
    let (q₁, popped) = dequeue q in
    elim popped [ none ↦ (q₁, none) | some m ↦ (q₁, some (parse_message m org)) ]

unfoldable pub ack : (org id : ℕ) → QueueState → QueueState
unfolding zrem hdel
ack org id q =
    let m = message org id in
    record q { processing = zrem m q.processing; priorities = hdel m q.priorities }

-- `now` in milliseconds is the score of a delayed member.
unfoldable pub ready_at : Time → Duration → ℕ
ready_at now delay = add_time now delay / 1000000

unfoldable pub nack : (org id : ℕ) → Duration → Time → QueueState → QueueState
unfolding push_pending zrem zadd hget_or_zero ready_at
nack org id delay now q =
    let m = message org id in
    let q₁ = record q { processing = zrem m q.processing } in
    if delay == 0 || is_negative delay
    then push_pending m (hget_or_zero m q.priorities) q₁
    else record q₁ { delayed = zadd (ready_at now delay) m q.delayed }

unfoldable pub enqueue_delayed : Task → Duration → Time → QueueState → QueueState
unfolding hdel normalize_priority zadd ready_at
enqueue_delayed t delay now q =
    let m = message t.org_id t.id in
    record q {
      priorities = (m, normalize_priority t.priority) ∷ hdel m q.priorities;
      delayed = zadd (ready_at now delay) m q.delayed;
    }

unfoldable pub move_to_dead_letter : (org id : ℕ) → QueueState → QueueState
unfolding zrem hdel
move_to_dead_letter org id q =
    let m = message org id in
    record q {
      processing = zrem m q.processing;
      pending = zrem m q.pending;
      delayed = zrem m q.delayed;
      priorities = hdel m q.priorities;
      dlq = m ∷ q.dlq;
    }

-- the loop of promoteDelayedScript
unfoldable pub promote_all : ZSet → QueueState → QueueState
unfolding push_pending zrem hget_or_zero
promote_all [] q = q
promote_all (e ∷ z) q =
    promote_all z
      (push_pending e.0 (hget_or_zero e.0 q.priorities) (record q { delayed = zrem e.0 q.delayed }))

unfoldable pub promote_due_delayed : Time → QueueState → QueueState
unfolding promote_all due_entries
promote_due_delayed now q = promote_all (take 100 (due_entries (now / 1000000) q.delayed)) q

unfoldable pub remove : (org id : ℕ) → QueueState → QueueState
unfolding zrem hdel lrem
remove org id q =
    let m = message org id in
    record q {
      pending = zrem m q.pending;
      processing = zrem m q.processing;
      delayed = zrem m q.delayed;
      priorities = hdel m q.priorities;
      dlq = lrem m q.dlq;
    }

-- One call of the broker, by whichever process.
pub data BrokerCall : Type 0 where
  enqueued : Task → BrokerCall
  dequeued : BrokerCall
  acked : (org id : ℕ) → BrokerCall
  nacked : (org id : ℕ) → Duration → Time → BrokerCall
  scheduled : Task → Duration → Time → BrokerCall
  buried : (org id : ℕ) → BrokerCall
  promoted : Time → BrokerCall
  removed : (org id : ℕ) → BrokerCall

unfoldable pub call : BrokerCall → QueueState → QueueState
call (enqueued t) q = enqueue t q
call dequeued q = (dequeue q).0
call (acked org id) q = ack org id q
call (nacked org id delay now) q = nack org id delay now q
call (scheduled t delay now) q = enqueue_delayed t delay now q
call (buried org id) q = move_to_dead_letter org id q
call (promoted now) q = promote_due_delayed now q
call (removed org id) q = remove org id q

unfoldable pub calls : List BrokerCall → QueueState → QueueState
unfolding call
calls [] q = q
calls (c ∷ cs) q = calls cs (call c q)
