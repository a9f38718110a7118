-- ===== src/Broker/Publish.antt =====
-- PUBLISH in broker/publish.go and broker/info.go.
pub mod Delivery
pub mod Among
pub mod Shared
pub mod Sent
pub mod Receipt
use thoth.Base.{
  ℕ, suc, Bool, true, false, not, ◌&&◌, ◌||◌, ite, Option, none, some, List, [], ◌∷◌, ◌++◌, map,
  Bytes, Bytes-discrete, codes, length, take, ◌==◌, if◌then◌else◌,
}
use thoth.Packets.{PublishPacket, ControlPacket}
use thoth.Heap.{at_address, modify}
use thoth.Topics.Value.{Value}
use thoth.Topics.Snode.{Found}
use thoth.Topics.MemTopics.{subscribers, retain}
use thoth.Client as Client
use thoth.Client.{ClientError}
use thoth.Client.Inbound.{register_publish_packet_id}
use thoth.Client.Outbound as Outbound
use thoth.Broker.{
  ClientType, Peer, Subscription, QueueMessage, Broker, World, with_peer, with_state, write_to,
  is_client_disconnected, is_router, is_end_user, is_none, no_found,
}

-- `publish(s, packet)` of broker/comm.go to the client of a subscription.
abbrev pub publish_to : World → PublishPacket → Subscription → Broker → Broker
publish_to w packet s =
    with_peer s.client (with_state (Outbound.publish (w.writes s.client) w.now packet))

-- `s, ok := sub.(*subscription)`
abbrev pub subscription_of : Value → Broker → Option Subscription
subscription_of (Value.pointer a) b = at_address a b.subscriptions
subscription_of v b = none

-- `s.client.typ == ROUTER && typ != CLIENT`
abbrev pub skips : ClientType → Option Peer → Bool
skips typ none = false
skips typ (some p) = is_router p.typ && not (is_end_user typ)

unfoldable pub is_skipped : ClientType → Subscription → Broker → Bool
is_skipped typ s b = skips typ (at_address s.client b.peers)

-- One round of the loop over `c.subs` in `ProcessPublishMessage`. `qsub` collects the shared
-- subscriptions themselves, where the code collects their places in `c.subs`.
unfoldable pub deliver_one :
    World
    → ClientType
    → PublishPacket
    → Value
    → Broker × List Subscription
    → Broker × List Subscription
deliver_one w typ packet v (b, qsub) = elim (subscription_of v b) [
  | none ↦ (b, qsub)
  | some s ↦
      if is_skipped typ s b
      then (b, qsub)
      else if s.share
      then (b, qsub ++ s ∷ [])
      else (publish_to w packet s b, qsub)
]

unfoldable pub fan_out :
    World
    → ClientType
    → PublishPacket
    → List Value
    → Broker × List Subscription
    → Broker × List Subscription
fan_out w typ packet [] o = o
fan_out w typ packet (v ∷ subs) o = fan_out w typ packet subs (deliver_one w typ packet v o)

-- One of the shared subscriptions is chosen by `r.Intn(len(qsub))`.
unfoldable pub share_out : World → PublishPacket → Broker × List Subscription → Broker
share_out w packet (b, qsub) = elim (at_address (w.intn (length qsub)) qsub) [
  | none ↦ b
  | some s ↦ publish_to w packet s b
]

-- `if packet.Retain { ... }`, whose error is only logged.
abbrev pub retain_if_asked : PublishPacket → Broker → Broker
retain_if_asked packet b =
    if packet.retain then record b { topics = (retain packet b.topics).0 } else b

-- After `Subscribers` has filled `c.subs` and `c.qoss`; an error ends the call, and an empty list
-- of subscribers has no round.
abbrev pub publish_found : World → ℕ → Peer → PublishPacket → Broker → Broker
publish_found w c p packet b =
    let (out, e) = subscribers packet.topic_name packet.qos b.topics p.found in
    let b' = with_peer c (λ q. record q { found = out }) b in
    if is_none e then share_out w packet (fan_out w p.typ packet out.subs (b', [])) else b'

unfoldable pub process_publish_message : World → ℕ → PublishPacket → Broker → Broker
process_publish_message w c packet b = elim (at_address c b.peers) [
  | none ↦ b
  | some p ↦ publish_found w c p packet (retain_if_asked packet b)
]

-- An acknowledgement, and then the message unless the write failed.
abbrev pub acknowledge : World → ControlPacket → ℕ → PublishPacket → Broker → Broker
acknowledge w ack c packet b =
    let (b', written) = write_to w ack c b in
    if written then process_publish_message w c packet b' else b'

unfoldable pub process_router_publish : World → ℕ → PublishPacket → Broker → Broker
process_router_publish w c packet b =
    if is_client_disconnected c b
    then b
    else if packet.qos == 0
    then process_publish_message w c packet b
    else if packet.qos == 1
    then acknowledge w (ControlPacket.puback packet.message_id) c packet b
    else b

-- `strings.HasPrefix` and `strings.Contains`.
abbrev pub has_prefix : Bytes → Bytes → Bool
has_prefix s prefix = ite (Bytes-discrete (take (length prefix) s) prefix) true false

abbrev pub contains : Bytes → Bytes → Bool
contains [] substr = has_prefix [] substr
contains (c ∷ s) substr = has_prefix (c ∷ s) substr || contains s substr

-- `PublishToStream` of rabbitmq/rabbitmq.go
abbrev pub publish_to_stream : QueueMessage → Broker → Broker
publish_to_stream msg b = record b { bridged = b.bridged ++ msg ∷ [] }

-- The first part of `processClientPublish`.
unfoldable pub bridge : World → Peer → PublishPacket → Broker → Broker
bridge w p packet b =
    if not (contains packet.topic_name (codes "config"))
      && not (contains packet.topic_name (codes "command"))
      && w.bridge_enabled
    then publish_to_stream
        (record {
          client_id = p.info.client_id;
          topic = packet.topic_name;
          payload = packet.payload;
          timestamp = w.millis;
        })
        b
    else b

-- The case of QoS 2: an error of `registerPublishPacketId` ends the call.
abbrev pub accept_exactly_once : World → ℕ → PublishPacket → Peer → Broker → Broker
accept_exactly_once w c packet p b =
    let (s, e) = register_publish_packet_id w.now packet.message_id p.state in
    if is_none e
    then acknowledge w (ControlPacket.pubrec packet.message_id) c packet
        (with_peer c (λ q. record q { state = s }) b)
    else b

unfoldable pub process_client_publish : World → ℕ → PublishPacket → Broker → Broker
process_client_publish w c packet b = elim (at_address c b.peers) [
  | none ↦ b
  | some p ↦
      let b' = bridge w p packet b in
      if packet.qos == 0
      then process_publish_message w c packet b'
      else if packet.qos == 1
      then acknowledge w (ControlPacket.puback packet.message_id) c packet b'
      else if packet.qos == 2
      then accept_exactly_once w c packet p b'
      else b'
]

abbrev pub broker_info_topic : Bytes
broker_info_topic = codes "broker000100101info"

abbrev pub store_nodes : Broker → Option Bytes → Broker
store_nodes b none = b
store_nodes b (some nodes) = record b { nodes = some nodes }

-- `ProcessInfo`: `b.nodes` is replaced by the map under "data".
unfoldable pub process_info : World → ℕ → PublishPacket → Broker → Broker
process_info w c packet b = elim (at_address c b.peers) [
  | none ↦ b
  | some p ↦ if p.state.conn then store_nodes b (w.data_map packet.payload) else b
]

unfoldable pub process_remote_publish : World → ℕ → PublishPacket → Broker → Broker
process_remote_publish w c packet b =
    if is_client_disconnected c b
    then b
    else ite (Bytes-discrete packet.topic_name broker_info_topic) (process_info w c packet b) b

-- `ProcessPublish`; a packet of a REMOTE is dropped.
unfoldable pub process_publish : World → ℕ → PublishPacket → Broker → Broker
process_publish w c packet b = elim (at_address c b.peers) [
  | none ↦ b
  | some p ↦ elim p.typ [
    | ClientType.end_user ↦ process_client_publish w c packet b
    | ClientType.router ↦ process_router_publish w c packet b
    | ClientType.remote ↦ b
    | ClientType.cluster ↦ process_remote_publish w c packet b
  ]
]
