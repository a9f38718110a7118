-- ===== src/Topics/Manager.antt =====
-- `TopicsProvider` and the methods of `Manager` in broker/persistence/topics/topics.go, and `memTopics` of
-- memtopics.go as a provider that can be closed: `Close` sets both roots to nil, and a method that reaches a
-- nil root panics, which is none here.
use thoth.Base.{
  ℕ, ◌≡◌, ◌≢◌, refl, Bool, true, false, not, Option, none, some, List, [], Bytes, length, ◌==◌,
  if◌then◌else◌,
}
use thoth.Packets.{PublishPacket}
use thoth.Topics.Level.{Result, TopicError, invalid_qos, nil_subscriber, next_topic_level}
use thoth.Topics.Value.{Value}
use thoth.Topics.Snode.{Found}
use thoth.Topics.MemTopics as MemTopics
use thoth.Topics.MemTopics.{MemTopics, valid_qos, qos_failure, is_nil_value}

-- The methods over a state of the provider.
pub record TopicsProvider (S : Type 0) : Type 0 where
  pub subscribe : Bytes → ℕ → Value → S → Option (S × ℕ × Option TopicError)
  pub unsubscribe : Bytes → Value → S → Option (S × Option TopicError)
  pub subscribers : Bytes → ℕ → S → Found → Option (Found × Option TopicError)
  pub retain : PublishPacket → S → Option (S × Option TopicError)
  pub retained : Bytes → S → List PublishPacket → Option (List PublishPacket × Option TopicError)
  pub close : S → S × Option TopicError

-- The methods of `Manager`, whose field is the provider.
module _ {S : Type 0} (p : TopicsProvider S) where
  abbrev pub manager_subscribe : Bytes → ℕ → Value → S → Option (S × ℕ × Option TopicError)
  manager_subscribe topic qos subscriber s = p.subscribe topic qos subscriber s

  abbrev pub manager_unsubscribe : Bytes → Value → S → Option (S × Option TopicError)
  manager_unsubscribe topic subscriber s = p.unsubscribe topic subscriber s

  abbrev pub manager_subscribers : Bytes → ℕ → S → Found → Option (Found × Option TopicError)
  manager_subscribers topic qos s out = p.subscribers topic qos s out

  abbrev pub manager_retain : PublishPacket → S → Option (S × Option TopicError)
  manager_retain msg s = p.retain msg s

  abbrev pub manager_retained :
      Bytes → S → List PublishPacket → Option (List PublishPacket × Option TopicError)
  manager_retained topic s msgs = p.retained topic s msgs

  abbrev pub manager_close : S → S × Option TopicError
  manager_close s = p.close s

-- The error of a method of a nil node that fails before it reaches a field.
abbrev level_error : Result (Bytes × Bytes) → Option TopicError
level_error (Result.err e) = some e
level_error (Result.ok r) = none

unfoldable pub nil_node : Bytes → Option TopicError
nil_node topic = if length topic == 0 then none else level_error (next_topic_level topic)

abbrev with_error {ℓ} : {A : Type ℓ} → A → Option TopicError → Option (A × Option TopicError)
with_error a none = none
with_error a (some e) = some (a, some e)

-- `Subscribe` of a provider that is closed: its guards come first.
abbrev pub closed_subscribe : Bytes → ℕ → Value → Option (ℕ × Option TopicError)
closed_subscribe topic qos subscriber =
    if not (valid_qos qos)
    then some (qos_failure, some (invalid_qos qos))
    else if is_nil_value subscriber
    then some (qos_failure, some nil_subscriber)
    else with_error qos_failure (nil_node topic)

abbrev pub closed_subscribers : Bytes → ℕ → Found → Option (Found × Option TopicError)
closed_subscribers topic qos out =
    if not (valid_qos qos)
    then some (out, some (invalid_qos qos))
    else with_error (record { subs = []; qoss = [] }) (nil_node topic)

abbrev answered {ℓ} :
    {A : Type ℓ}
    → Option (A × Option TopicError)
    → Option (Option MemTopics × A × Option TopicError)
answered none = none
answered (some (a, e)) = some (none, a, e)

abbrev subscribe_at :
    Bytes → ℕ → Value → Option MemTopics → Option (Option MemTopics × ℕ × Option TopicError)
subscribe_at topic qos subscriber none = answered (closed_subscribe topic qos subscriber)
subscribe_at topic qos subscriber (some t) =
    let (t', granted, e) = MemTopics.subscribe topic qos subscriber t in some (some t', granted, e)

abbrev unsubscribe_at :
    Bytes → Value → Option MemTopics → Option (Option MemTopics × Option TopicError)
unsubscribe_at topic subscriber none = with_error none (nil_node topic)
unsubscribe_at topic subscriber (some t) =
    let (t', e) = MemTopics.unsubscribe topic subscriber t in some (some t', e)

abbrev subscribers_at : Bytes → ℕ → Option MemTopics → Found → Option (Found × Option TopicError)
subscribers_at topic qos none out = closed_subscribers topic qos out
subscribers_at topic qos (some t) out = some (MemTopics.subscribers topic qos t out)

abbrev retain_at : PublishPacket → Option MemTopics → Option (Option MemTopics × Option TopicError)
retain_at msg none = with_error none (nil_node msg.topic_name)
retain_at msg (some t) = let (t', e) = MemTopics.retain msg t in some (some t', e)

abbrev retained_at :
    Bytes → Option MemTopics → List PublishPacket → Option (List PublishPacket × Option TopicError)
retained_at topic none msgs = with_error msgs (nil_node topic)
retained_at topic (some t) msgs = some (MemTopics.retained topic t msgs)

-- The provider named "mem".
abbrev pub mem_topics : TopicsProvider (Option MemTopics)
mem_topics = record {
  subscribe = subscribe_at;
  unsubscribe = unsubscribe_at;
  subscribers = subscribers_at;
  retain = retain_at;
  retained = retained_at;
  close = λ s. (none, none);
}

-- A panic or an error.
abbrev pub fails {ℓ} : {A : Type ℓ} → Option (A × Option TopicError) → Bool
fails none = true
fails (some (a, none)) = false
fails (some (a, some e)) = true

-- It fails, and a provider that it leaves is closed.
abbrev pub IsRefusal : Option (Option MemTopics × Option TopicError) → Type 0
IsRefusal none = Unit
IsRefusal (some (s, e)) = (s ≡ none) × (e ≢ none)

-- The same for an answer with a QoS, which is then that of a failure.
abbrev pub IsRefusedSubscribe : Option (Option MemTopics × ℕ × Option TopicError) → Type 0
IsRefusedSubscribe none = Unit
IsRefusedSubscribe (some (s, granted, e)) = (s ≡ none) × (granted ≡ qos_failure) × (e ≢ none)

with_error-IsRefusal : (o : Option TopicError) → IsRefusal (with_error none o)
with_error-IsRefusal none = tt
with_error-IsRefusal (some e) = (refl, λ h. cc)

fails-with_error : {A : Type 0} → (a : A) (o : Option TopicError) → fails (with_error a o) ≡ true
fails-with_error a none = refl
fails-with_error a (some e) = refl

closed-IsRefusedSubscribe :
    (topic : Bytes) (qos : ℕ) (v : Value)
    → IsRefusedSubscribe (answered (closed_subscribe topic qos v))
closed-IsRefusedSubscribe topic qos v =
    of_tests (not (valid_qos qos)) (is_nil_value v) (nil_node topic)
  where
    of_tests :
        (x y : Bool) (o : Option TopicError)
        → IsRefusedSubscribe (
            answered (
              if x
              then some (qos_failure, some (invalid_qos qos))
              else if y
              then some (qos_failure, some nil_subscriber)
              else with_error qos_failure o))
    of_tests true y o = (refl, refl, λ h. cc)
    of_tests false true o = (refl, refl, λ h. cc)
    of_tests false false none = tt
    of_tests false false (some e) = (refl, refl, λ h. cc)

fails-closed_subscribers :
    (topic : Bytes) (qos : ℕ) (out : Found) → fails (closed_subscribers topic qos out) ≡ true
fails-closed_subscribers topic qos out = of_test (not (valid_qos qos))
  where
    of_test :
        (x : Bool)
        → fails (
            if x
            then some (out, some (invalid_qos qos))
            else with_error (record { subs = []; qoss = [] }) (nil_node topic))
          ≡ true
    of_test true = refl
    of_test false = fails-with_error _ (nil_node topic)

-- Once the provider was closed, whatever state it was in, no method succeeds any more: each one panics or
-- reports an error, and leaves the provider closed.
pub manager_close-refuses :
    (s : Option MemTopics) (topic : Bytes) (qos : ℕ) (v : Value) (msg : PublishPacket) (out : Found)
    (msgs : List PublishPacket)
    → let s' = (manager_close mem_topics s).0 in
      IsRefusedSubscribe (manager_subscribe mem_topics topic qos v s')
      × IsRefusal (manager_unsubscribe mem_topics topic v s')
      × (fails (manager_subscribers mem_topics topic qos s' out) ≡ true)
      × IsRefusal (manager_retain mem_topics msg s')
      × (fails (manager_retained mem_topics topic s' msgs) ≡ true)
manager_close-refuses s topic qos v msg out msgs = (
  closed-IsRefusedSubscribe topic qos v,
  with_error-IsRefusal (nil_node topic),
  fails-closed_subscribers topic qos out,
  with_error-IsRefusal (nil_node msg.topic_name),
  fails-with_error msgs (nil_node topic),
)
