-- ===== src/Broker/Subscribe/Kept.antt =====
-- A round of `processClientSubscribe` of broker/subscribe.go that keeps its subscription.
use thoth.Base.{
  ℕ, ◌≡◌, refl, ap, Bool, true, false, Option, none, some, [], ◌∷◌, ◌++◌, Bytes, Bytes-discrete,
  length, if◌then◌else◌,
}
use thoth.Assoc.{insert}
use thoth.Heap.{at_address}
use thoth.Sessions.Session as Session
use thoth.Topics.Value.{Value}
use thoth.Topics.MemTopics.{subscribe, qos_failure}
use thoth.Broker.{Peer, Broker, World, with_peer, is_none}
use thoth.Broker.Subscribe.{
  parse_share, new_subscription, replace_old, on_session, with_session, keep_client_sub,
  subscribe_new, client_round,
}

-- The broker with the new subscription in its tree, before the client keeps it.
abbrev pub subscribed : ℕ → ℕ → Bytes × Bool × Bytes → Broker → Broker
subscribed c qos g b = record b {
  subscriptions = b.subscriptions ++ new_subscription c qos g ∷ [];
  topics = (subscribe g.0 qos (Value.pointer (length b.subscriptions)) b.topics).0;
}

abbrev broker_of : Broker × ℕ → Broker
broker_of o = o.0

subscribe_new-kept :
    (keep : ℕ → Broker → Broker) (c qos : ℕ) (g : Bytes × Bool × Bytes) (b : Broker)
    → (subscribe g.0 qos (Value.pointer (length b.subscriptions)) b.topics).2 ≡ none
    → (subscribe_new keep c qos g b).0 ≡ keep (length b.subscriptions) (subscribed c qos g b)
subscribe_new-kept keep c qos g b e =
    picked (is_none (subscribe g.0 qos (Value.pointer (length b.subscriptions)) b.topics).2) _ _ _
      (ap is_none e)
  where
    picked :
        (x : Bool) (u v : Broker) (n : ℕ)
        → x ≡ true
        → broker_of (if x then (u, n) else (v, qos_failure)) ≡ u
    picked true u v n h = refl
    picked false u v n h = cc

pub client_round-kept :
    (w : World) (c : ℕ) (t : Bytes) (qos : ℕ) (g : Bytes × Bool × Bytes) (b : Broker)
    → parse_share t ≡ some g
    → (subscribe g.0 qos
        (Value.pointer (length (replace_old c t b).subscriptions))
        (replace_old c t b).topics).2
      ≡ none
    → (client_round w c (t, qos) b).0
      ≡ keep_client_sub c t qos g.0
          (length (replace_old c t b).subscriptions)
          (subscribed c qos g (replace_old c t b))
unfolding client_round
client_round-kept w c t qos g b e h =
    rw (e, client_round)
      (subscribe_new-kept (keep_client_sub c t qos g.0) c qos g (replace_old c t b) h)

-- What keeping a subscription leaves of the broker.
on_session-same :
    (f : Session.Session → Session.Session) (b : Broker) (o : Option Peer)
    → ((on_session f b o).topics ≡ b.topics) × ((on_session f b o).subscriptions ≡ b.subscriptions)
on_session-same f b none = (refl, refl)
on_session-same f b (some p) = (refl, refl)

pub keep_client_sub-same :
    (c : ℕ) (t : Bytes) (qos : ℕ) (topic : Bytes) (a : ℕ) (b : Broker)
    → ((keep_client_sub c t qos topic a b).topics ≡ b.topics)
      × ((keep_client_sub c t qos topic a b).subscriptions ≡ b.subscriptions)
unfolding with_session
keep_client_sub-same c t qos topic a b =
    let b' = with_peer c (λ p. record p { sub_map = insert Bytes-discrete t a p.sub_map }) b in
    on_session-same (λ s. (Session.add_topic t qos s).0) b' (at_address c b'.peers)
