-- ===== src/Sessions/Topics.antt =====
-- The topics of a session: `AddTopic` and `RemoveTopic` of broker/persistence/sessions/session.go.
use thoth.Base.{ℕ, ◌≡◌, ap, ◌∙◌, arith, true, none, some, Bytes, Bytes-discrete}
use thoth.Assoc.{lookup, insert, remove, lookup-insert_self, remove-insert_new}
use thoth.Sessions.Session.{Session, add_topic, remove_topic}

add_topic-lem :
    (topic : Bytes) (qos : ℕ) (s : Session)
    → s.initted ≡ true
    → add_topic topic qos s ≡ (record s { topics = insert Bytes-discrete topic qos s.topics }, none)
unfolding add_topic
add_topic-lem topic qos s h = ground arith

remove_topic-lem :
    (topic : Bytes) (s : Session)
    → s.initted ≡ true
    → remove_topic topic s ≡ (record s { topics = remove Bytes-discrete topic s.topics }, none)
unfolding remove_topic
remove_topic-lem topic s h = ground arith

-- In an initialised session that does not have the topic, `AddTopic` stores its QoS without an
-- error, and `RemoveTopic` then gives the session back as it was, without an error.
pub remove_topic-add_topic :
    (topic : Bytes) (qos : ℕ) (s : Session)
    → s.initted ≡ true
    → lookup Bytes-discrete topic s.topics ≡ none
    → ((add_topic topic qos s).1 ≡ none)
      × (lookup Bytes-discrete topic (add_topic topic qos s).0.topics ≡ some qos)
      × (remove_topic topic (add_topic topic qos s).0 ≡ (s, none))
remove_topic-add_topic topic qos s i h = (
  ap (λ o. o.1) (add_topic-lem topic qos s i),
  ap (λ o. lookup Bytes-discrete topic o.0.topics) (add_topic-lem topic qos s i)
      ∙ lookup-insert_self Bytes-discrete topic qos s.topics,
  ap (λ o. remove_topic topic o.0) (add_topic-lem topic qos s i)
      ∙ remove_topic-lem topic (record s { topics = insert Bytes-discrete topic qos s.topics }) i
      ∙ ap (λ m. (record s { topics = m }, none))
          (remove-insert_new Bytes-discrete topic qos s.topics h),
)
