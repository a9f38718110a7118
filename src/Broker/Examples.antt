-- ===== src/Broker/Examples.antt =====
-- Runs of the handlers of broker/ on a small broker.
mod Replies
mod Runs
use mathlib.Core.List.{Perm}
use thoth.Base.{
  codes, length, ◌==◌, ℕ, suc, ◌≡◌, refl, arith, true, false, none, some, List, [], ◌∷◌, ◌++◌, map,
  Bytes, Bytes-discrete, if◌then◌else◌,
}
use thoth.Packets.{PublishPacket, ConnectPacket, SubscribePacket, ControlPacket}
use thoth.Assoc.{lookup, insert}
use thoth.Heap.{at_address, modify}
use thoth.Sessions.Laws.{opened}
use thoth.Topics.Level.{round, scan, next_topic_level}
use thoth.Topics.Levels.{levels}
use thoth.Topics.Matching.{matches}
use thoth.Topics.Trie.{find, put}
use thoth.Topics.Value.{Value, equal}
use thoth.Topics.Snode.{sinsert, insert_here, index_of}
use thoth.Topics.Snode.Entries.{entries, holds}
use thoth.Topics.Snode.Match.{hits}
use thoth.Topics.MemTopics.{subscribe}
use thoth.Topics.MemTopics.Subscriptions.{HasPath}
use thoth.Topics.MemTopics.Invariant.{new_mem_provider-IsMemTopics}
use thoth.Client as Client
use thoth.Broker.{ClientType, Peer, Broker, World, new_broker, new_peer, with_peer}
use thoth.Broker.Publish.{retain_if_asked, process_publish_message}
use thoth.Topics.Trie.Entries.{leaves}
use thoth.Broker.Groups.{split_group}
use thoth.Broker.Publish.Shared.{IsOneOf, process_publish_message-one_shared}
use thoth.Broker.{Subscription}
use thoth.Broker.Publish.Delivery.{
  is_receiver, selected, unshared, shared, receivers, deliver_each, count_of,
}
use thoth.Broker.Publish.Receipt.{found_by, process_publish_message-eq}
use thoth.Broker.Publish.Sent.{
  state_of, sent_of, replicate, process_publish_message-sent, process_publish_message-lost,
}
use thoth.Broker.Subscribe.{
  rounds, router_round, find_sub, new_subscription, replace_old, with_session, parse_share,
  client_round, zip, suback_of, process_client_subscribe,
}
use thoth.Broker.Subscribe.Codes.{expected, rounds-expected}
use thoth.Broker.Flow.{publish-client_round}
use thoth.Broker.Valid.{IsBroker, IsBroker-IsKept}
use thoth.Broker.Kept.{IsServing}
use thoth.Broker.Connect.{Visit, info_of, handle_connection}
use thoth.Broker.Connect.Admission.{
  is_accepted, admits, handle_connection-eq-admits, handle_connection-unchanged,
}
use thoth.Broker.Connect.Takeover.{answer, handle_connection-takes_over}
use thoth.Broker.Subscribe.Replies.{
  state_at, messages, state-client_round, process_client_subscribe-sent,
}
use thoth.Broker.Unsubscribe.{client_unsubscribe}
use thoth.Broker.Unsubscribe.Ended.{client_unsubscribe-ends}
use thoth.Broker.Accept.{
  AcceptResult, new_acceptor, accept_rounds, IsAcceptor, new_acceptor-IsAcceptor,
  accept_rounds-IsAcceptor,
}
use thoth.Broker.Invariant.Subscribed.{client_round-IsServing}
use thoth.Broker.Invariant.{Event, run}
use thoth.Broker.Invariant.Runs.{run-IsBroker, new_broker-IsBroker}

abbrev pub request : Bytes → ConnectPacket
request cid = record {
  client_identifier = cid;
  username = [];
  password = [];
  keepalive = 60;
  clean_session = true;
  will_flag = false;
  will_qos = 0;
  will_retain = false;
  will_topic = [];
  will_message = [];
  qos = 0;
  dup = false;
}

abbrev pub world : World
world = record {
  writes = λ c p. true;
  now = 5;
  millis = 5000;
  intn = λ n. 0;
  bridge_enabled = false;
  data_map = λ s. none;
}

abbrev pub visit : Bytes → Visit
visit cid = record {
  packet = some (ControlPacket.connect (request cid));
  validate = λ m. 0;
  check_connect = λ u p. true;
  connack_written = true;
  generated = 1 ∷ [];
  payload = 2 ∷ [];
}

-- "a"
abbrev pub topic : Bytes
topic = 97 ∷ []

abbrev pub message : ℕ → PublishPacket
message qos = record {
  message_id = 5;
  topic_name = topic;
  qos = qos;
  retain = true;
  dup = false;
  payload = 7 ∷ [];
}

abbrev pub subscription_packet : SubscribePacket
subscription_packet = record {
  message_id = 6;
  topics = topic ∷ (97 ∷ 35 ∷ []) ∷ [];
  qoss = 1 ∷ 1 ∷ [];
}

abbrev pub events : List Event
events =
    Event.connection world (visit (98 ∷ [])) ClientType.end_user
    ∷ Event.connection world (visit (99 ∷ [])) ClientType.router
    ∷ Event.message world 0 (ControlPacket.subscribe subscription_packet)
    ∷ Event.message world 1 (ControlPacket.publish (message 0))
    ∷ []

run-IsBroker_example : IsBroker (run events new_broker)
run-IsBroker_example = run-IsBroker events new_broker new_broker-IsBroker

abbrev pub peer : ClientType → Bytes → ℕ → Peer
peer typ cid session = new_peer typ (info_of (request cid)) session

-- An end user and a router, both connected, without a subscription.
abbrev pub two_peers : Broker
two_peers = record new_broker {
  peers = peer ClientType.end_user (98 ∷ []) 0 ∷ peer ClientType.router (99 ∷ []) 1 ∷ [];
  sessions = record {
    heap = opened (request (98 ∷ [])) ∷ opened (request (99 ∷ [])) ∷ [];
    st = [];
  };
  routes = (99 ∷ [], 1) ∷ [];
}

pub two_peers-IsBroker : IsBroker two_peers
two_peers-IsBroker = (
  new_mem_provider-IsMemTopics,
  (tt, tt),
  tt,
  ((tt, omega arith), ((tt, omega arith), tt)),
  tt,
  tt,
  (omega arith, tt),
)

pub topic_path : HasPath topic (topic ∷ [])
unfolding levels next_topic_level scan round
topic_path = refl

asked : parse_share topic ≡ some (topic, false, [])
unfolding parse_share Bytes-discrete
asked = refl

abbrev router : Peer
router = peer ClientType.router (99 ∷ []) 1

router_stays : at_address 1 (client_round world 0 (topic, 1) two_peers).0.peers ≡ some router
unfolding client_round parse_share Bytes-discrete replace_old with_session modify lookup insert
    subscribe sinsert insert_here index_of equal find put levels next_topic_level scan round
router_stays = refl

publish-client_round_example :
    (n : ℕ) × (sent_of (
        state_of (
          at_address 0
            (process_publish_message world 1
              (message 0)
              (client_round world 0 (topic, 1) two_peers).0).peers))
      ≡ [] ++ replicate (suc n) (ControlPacket.publish (message 0)))
unfolding matches Bytes-discrete
publish-client_round_example =
    publish-client_round world 0 topic 1 topic [] topic (topic ∷ []) (topic ∷ []) two_peers
      (peer ClientType.end_user (98 ∷ []) 0) refl refl asked topic_path topic_path refl refl
      two_peers-IsBroker world 1 router (message 0) Client.init router_stays refl refl refl
      (refl, refl) refl

-- The client has a subscription now.
abbrev pub broker : Broker
broker = (client_round world 0 (topic, 1) two_peers).0

pub broker-IsServing : IsServing IsBroker 0 broker
broker-IsServing =
    client_round-IsServing IsBroker IsBroker-IsKept world 0 (topic, 1) two_peers
      (two_peers-IsBroker, omega arith)

waiting : state_of (at_address 0 broker.peers) ≡ some Client.init
waiting = state-client_round 0 world 0 (topic, 1) two_peers

process_publish_message-eq_example :
    let vs = hits (topic ∷ []) (entries broker.topics.sroot) in
    process_publish_message world 1 (message 0) broker
    ≡ deliver_each world
        (message 0)
        (receivers world ClientType.router broker vs)
        (with_peer 1 (λ r. record r { found = found_by 0 vs }) (retain_if_asked (message 0) broker))
process_publish_message-eq_example =
    process_publish_message-eq world 1 (message 0) broker router (topic ∷ []) router_stays
      topic_path refl broker-IsServing.0.0.snodes

-- "$share/g/a"
abbrev shared_filter : Bytes
shared_filter = codes "$share/g/a"

-- The client shares a subscription.
abbrev shared_broker : Broker
shared_broker = (client_round world 0 (shared_filter, 1) two_peers).0

shared_broker-IsServing : IsServing IsBroker 0 shared_broker
shared_broker-IsServing =
    client_round-IsServing IsBroker IsBroker-IsKept world 0 (shared_filter, 1) two_peers
      (two_peers-IsBroker, omega arith)

router_stays_too : at_address 1 shared_broker.peers ≡ some router
unfolding client_round parse_share split_group Bytes-discrete replace_old with_session modify lookup
    insert subscribe sinsert insert_here index_of equal find put levels next_topic_level scan round
router_stays_too = refl

one_shared :
    length (
      shared (
        selected ClientType.router shared_broker
          (hits (topic ∷ []) (entries shared_broker.topics.sroot))))
    ≡ 1
unfolding client_round parse_share split_group Bytes-discrete replace_old with_session modify lookup
    insert subscribe sinsert insert_here index_of equal find put levels next_topic_level scan round
    selected is_receiver matches hits leaves
one_shared = refl

process_publish_message-one_shared_example :
    let vs = hits (topic ∷ []) (entries shared_broker.topics.sroot) in
    (cs : List Subscription) × (process_publish_message world 1 (message 0) shared_broker
      ≡ deliver_each world
          (message 0)
          (unshared (selected ClientType.router shared_broker vs) ++ cs)
          (with_peer 1
            (λ r. record r { found = found_by 0 vs })
            (retain_if_asked (message 0) shared_broker)))
    × IsOneOf (shared (selected ClientType.router shared_broker vs)) cs
process_publish_message-one_shared_example =
    process_publish_message-one_shared world 1 (message 0) shared_broker router (topic ∷ [])
      (λ n l. l) router_stays_too topic_path refl shared_broker-IsServing.0.0.snodes

process_publish_message-sent_example :
    sent_of (state_of (at_address 0 (process_publish_message world 1 (message 0) broker).peers))
    ≡ []
      ++ replicate
          (count_of 0 (
            receivers world ClientType.router broker
              (hits (topic ∷ []) (entries broker.topics.sroot))))
          (ControlPacket.publish (message 0))
process_publish_message-sent_example =
    process_publish_message-sent world 1 0 (message 0) broker router (topic ∷ []) Client.init
      router_stays topic_path refl broker-IsServing.0.0.snodes waiting (refl, refl) refl

process_publish_message-lost_example :
    state_of (at_address 0 (process_publish_message world 1 (message 2) broker).peers)
    ≡ some Client.init
process_publish_message-lost_example =
    process_publish_message-lost world 1 0 (message 2) broker router (topic ∷ []) Client.init
      router_stays topic_path refl broker-IsServing.0.0.snodes waiting
