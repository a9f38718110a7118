-- ===== src/Topics/MemTopics.antt =====
-- `memTopics` of broker/persistence/topics/memtopics.go over its subscription tree and its tree of
-- retained messages. The locks make each method one step. `Close` is in Manager.
pub mod Invariant
pub mod Subscriptions
pub mod Retention
pub mod Termination
use thoth.Base.{
  ℕ, suc, Bool, ◌||◌, not, Option, none, some, List, [], ◌∷◌, Bytes, length, ◌==◌, ltb,
  if◌then◌else◌,
}
use thoth.Packets.{PublishPacket}
use thoth.Topics.Level.{TopicError, invalid_qos, nil_subscriber}
use thoth.Topics.Value.{Value}
use thoth.Topics.Snode
use thoth.Topics.Snode.{Snode, Found, new_snode, sinsert, sremove, smatch}
use thoth.Topics.Rnode.{Rnode, new_rnode, rinsert_or_update, rremove, rmatch}

abbrev pub qos_at_most_once : ℕ
qos_at_most_once = 0

abbrev pub qos_at_least_once : ℕ
qos_at_least_once = 1

abbrev pub qos_exactly_once : ℕ
qos_exactly_once = 2

abbrev pub qos_failure : ℕ
qos_failure = 0x80

pub record MemTopics : Type 0 where
  pub sroot : Snode
  pub rroot : Rnode

abbrev pub new_mem_provider : MemTopics
new_mem_provider = record { sroot = new_snode; rroot = new_rnode }

abbrev pub valid_qos : ℕ → Bool
valid_qos qos = qos == qos_at_most_once || qos == qos_at_least_once || qos == qos_exactly_once

-- Fuel that is enough for a topic.
abbrev pub fuel : Bytes → ℕ
fuel topic = suc (length topic)

abbrev pub is_nil_value : Value → Bool
is_nil_value Value.nil = Bool.true
is_nil_value _ = Bool.false

-- The state, the QoS that is returned, and the error.
unfoldable pub subscribe : Bytes → ℕ → Value → MemTopics → MemTopics × ℕ × Option TopicError
subscribe topic qos sub t =
    if not (valid_qos qos)
    then (t, qos_failure, some (invalid_qos qos))
    else if is_nil_value sub
    then (t, qos_failure, some nil_subscriber)
    else (let granted = if ltb qos_exactly_once qos then qos_exactly_once else qos in
        let (n, r) = sinsert (fuel topic) topic granted sub t.sroot in
        (record t { sroot = n }, elim r [ some e ↦ qos_failure | none ↦ granted ], r))

unfoldable pub unsubscribe : Bytes → Value → MemTopics → MemTopics × Option TopicError
unsubscribe topic sub t =
    let (n, r) = sremove (fuel topic) topic sub t.sroot in (record t { sroot = n }, r)

-- `Subscribers` empties the slices that it is given, unless the QoS is invalid.
unfoldable pub subscribers : Bytes → ℕ → MemTopics → Found → Found × Option TopicError
subscribers topic qos t out =
    if not (valid_qos qos)
    then (out, some (invalid_qos qos))
    else smatch (fuel topic) topic qos t.sroot (record { subs = []; qoss = [] })

-- An empty payload deletes the retained message.
unfoldable pub retain : PublishPacket → MemTopics → MemTopics × Option TopicError
retain msg t =
    if length msg.payload == 0
    then (let (n, r) = rremove (fuel msg.topic_name) msg.topic_name t.rroot in
        (record t { rroot = n }, r))
    else (let (n, r) = rinsert_or_update (fuel msg.topic_name) msg.topic_name msg t.rroot in
        (record t { rroot = n }, r))

unfoldable pub retained :
    Bytes → MemTopics → List PublishPacket → List PublishPacket × Option TopicError
retained topic t msgs = rmatch (fuel topic) topic t.rroot msgs
