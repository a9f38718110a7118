-- ===== src/Broker/Invariant/Published.antt =====
-- The validity of the pointers and PUBLISH: broker/publish.go.
use thoth.Base.{
  ◌++◌, ◌≡◌, ap, ◌∙◌, Bool, true, false, if◌then◌else◌, refl, ℕ, sym, subst, inl, inr, not, ◌&&◌,
  Option, none, some, List, [], ◌∷◌, Bytes, Bytes-discrete, ite, codes, ◌==◌, Option-cases,
}
use thoth.Packets.{PublishPacket, ControlPacket}
use thoth.Heap.{at_address, modify-agree}
use thoth.Topics.MemTopics.{subscribers, retain}
use thoth.Client.Effects.{Effect, apply}
use thoth.Client.Inbound.{register_publish_packet_id}
use thoth.Broker.{
  ClientType, Peer, Subscription, Broker, World, with_peer, with_state, write_to,
  is_client_disconnected, is_none,
}
use thoth.Broker.Publish.{
  publish_to, retain_if_asked, publish_found, process_publish_message, acknowledge,
  process_router_publish, bridge, accept_exactly_once, process_client_publish, store_nodes,
  process_info, process_remote_publish, broker_info_topic, process_publish, contains,
}
use thoth.Broker.Publish.Delivery.{deliver_each, receivers, share_out-fan_out}
use thoth.Broker.Kept.{IsKept, if-kept}

module _ (P : Broker → Type 0) (kept : IsKept P) where
  -- A change of the handshakes that is written out for a client that is known.
  pub set_state-kept :
      (c : ℕ) (e : Effect) (p : Peer) (b : Broker)
      → at_address c b.peers ≡ some p
      → P b
      → P (with_peer c (λ q. record q { state = apply e p.state }) b)
  set_state-kept c e p b h v =
      subst (λ ps. P (record b { peers = ps }))
        (modify-agree c (with_state (apply e)) (λ q. record q { state = apply e p.state }) b.peers p
          h refl)
        (kept.acts c e b v)

  pub write_to-kept :
      (w : World) (packet : ControlPacket) (c : ℕ) (b : Broker) → P b → P (write_to w packet c b).0
  unfolding write_to
  write_to-kept w packet c b v = elim (Option-cases (at_address c b.peers)) [
    | inl e ↦ rw (e, write_to) v
    | inr (p, e) ↦ rw (e, write_to) (set_state-kept c (Effect.writing (w.writes c) packet) p b e v)
  ]

  deliver_each-kept :
      (w : World) (packet : PublishPacket) (ss : List Subscription) (b : Broker)
      → P b
      → P (deliver_each w packet ss b)
  deliver_each-kept w packet [] b v = v
  deliver_each-kept w packet (s ∷ ss) b v =
      deliver_each-kept w packet ss (publish_to w packet s b)
        (kept.acts s.client (Effect.delivery (w.writes s.client) w.now packet) b v)

  publish_found-kept :
      (w : World) (c : ℕ) (p : Peer) (packet : PublishPacket) (b : Broker)
      → P b
      → P (publish_found w c p packet b)
  publish_found-kept w c p packet b v =
      let out = (subscribers packet.topic_name packet.qos b.topics p.found).0 in
      let b' = with_peer c (λ q. record q { found = out }) b in
      let v' : P b' =
        kept.owns c (λ q. record q { found = out }) b (λ q. (refl, refl, refl, refl, λ h. h)) v in
      if-kept P (is_none (subscribers packet.topic_name packet.qos b.topics p.found).1) _ b'
        (subst P (sym (share_out-fan_out w p.typ packet out.subs b'))
          (deliver_each-kept w packet (receivers w p.typ b' out.subs) b' v'))
        v'

  pub process_publish_message-kept :
      (w : World) (c : ℕ) (packet : PublishPacket) (b : Broker)
      → P b
      → P (process_publish_message w c packet b)
  unfolding process_publish_message
  process_publish_message-kept w c packet b v = elim (Option-cases (at_address c b.peers)) [
    | inl e ↦ rw (e, process_publish_message) v
    | inr (p, e) ↦
        rw (e, process_publish_message)
          (publish_found-kept w c p packet (retain_if_asked packet b) (
            if-kept P packet.retain (record b { topics = (retain packet b.topics).0 }) b
              (kept.retains packet b v) v))
  ]

  acknowledge-kept :
      (w : World) (ack : ControlPacket) (c : ℕ) (packet : PublishPacket) (b : Broker)
      → P b
      → P (acknowledge w ack c packet b)
  acknowledge-kept w ack c packet b v =
      let v' = write_to-kept w ack c b v in
      if-kept P (write_to w ack c b).1 _ (write_to w ack c b).0
        (process_publish_message-kept w c packet (write_to w ack c b).0 v') v'

  process_router_publish-kept :
      (w : World) (c : ℕ) (packet : PublishPacket) (b : Broker)
      → P b
      → P (process_router_publish w c packet b)
  unfolding process_router_publish
  process_router_publish-kept w c packet b v = if-kept P (is_client_disconnected c b) b _ v (
      if-kept P (packet.qos == 0) _ _ (process_publish_message-kept w c packet b v) (
        if-kept P (packet.qos == 1) _ b
          (acknowledge-kept w (ControlPacket.puback packet.message_id) c packet b v) v))

  bridge-kept :
      (w : World) (p : Peer) (packet : PublishPacket) (b : Broker) → P b → P (bridge w p packet b)
  unfolding bridge
  bridge-kept w p packet b v =
      if-kept P
        (not (contains packet.topic_name (codes "config"))
          && not (contains packet.topic_name (codes "command"))
          && w.bridge_enabled)
        _ b
        (kept.notes b.nodes
          (b.bridged
            ++ record {
              client_id = p.info.client_id;
              topic = packet.topic_name;
              payload = packet.payload;
              timestamp = w.millis;
            }
              ∷ [])
          b v)
        v

  bridge-peers :
      (w : World) (p : Peer) (packet : PublishPacket) (b : Broker)
      → (bridge w p packet b).peers ≡ b.peers
  unfolding bridge
  bridge-peers w p packet b =
      of_test
        (not (contains packet.topic_name (codes "config"))
          && not (contains packet.topic_name (codes "command"))
          && w.bridge_enabled)
        _ refl
    where
      of_test : (x : Bool) (u : Broker) → u.peers ≡ b.peers → (if x then u else b).peers ≡ b.peers
      of_test true u h = h
      of_test false u h = refl

  accept-kept :
      (w : World) (c : ℕ) (packet : PublishPacket) (p : Peer) (b : Broker)
      → at_address c b.peers ≡ some p
      → P b
      → P (accept_exactly_once w c packet p b)
  accept-kept w c packet p b h v =
      let s = (register_publish_packet_id w.now packet.message_id p.state).0 in
      if-kept P (is_none (register_publish_packet_id w.now packet.message_id p.state).1) _ b
        (acknowledge-kept w (ControlPacket.pubrec packet.message_id) c packet
          (with_peer c (λ q. record q { state = s }) b)
          (set_state-kept c (Effect.acceptance w.now packet.message_id) p b h v))
        v

  process_client_publish-kept :
      (w : World) (c : ℕ) (packet : PublishPacket) (b : Broker)
      → P b
      → P (process_client_publish w c packet b)
  unfolding process_client_publish
  process_client_publish-kept w c packet b v = elim (Option-cases (at_address c b.peers)) [
    | inl e ↦ rw (e, process_client_publish) v
    | inr (p, e) ↦
        rw (e, process_client_publish)
          (let b' = bridge w p packet b in
            let v' = bridge-kept w p packet b v in
            if-kept P (packet.qos == 0) _ _ (process_publish_message-kept w c packet b' v') (
              if-kept P (packet.qos == 1) _ _
                (acknowledge-kept w (ControlPacket.puback packet.message_id) c packet b' v')
                (if-kept P (packet.qos == 2) _ b'
                  (accept-kept w c packet p b' (ap (at_address c) (bridge-peers w p packet b) ∙ e)
                    v')
                  v')))
  ]

  process_info-kept :
      (w : World) (c : ℕ) (packet : PublishPacket) (b : Broker)
      → P b
      → P (process_info w c packet b)
  unfolding process_info
  process_info-kept w c packet b v = elim (Option-cases (at_address c b.peers)) [
    | inl e ↦ rw (e, process_info) v
    | inr (p, e) ↦
        rw (e, process_info) (if-kept P p.state.conn _ b (stored (w.data_map packet.payload)) v)
  ]
    where
      stored : (o : Option Bytes) → P (store_nodes b o)
      stored none = v
      stored (some nodes) = kept.notes (some nodes) b.bridged b v

  process_remote_publish-kept :
      (w : World) (c : ℕ) (packet : PublishPacket) (b : Broker)
      → P b
      → P (process_remote_publish w c packet b)
  unfolding process_remote_publish
  process_remote_publish-kept w c packet b v =
      if-kept P (is_client_disconnected c b) b _ v
        (elim (Bytes-discrete packet.topic_name broker_info_topic)
          as (λ d. P (ite d (process_info w c packet b) b)) [
            | yes e ↦ process_info-kept w c packet b v
            | no e ↦ v
          ])

  pub process_publish-kept :
      (w : World) (c : ℕ) (packet : PublishPacket) (b : Broker)
      → P b
      → P (process_publish w c packet b)
  unfolding process_publish
  process_publish-kept w c packet b v = elim (Option-cases (at_address c b.peers)) [
    | inl e ↦ rw (e, process_publish) v
    | inr (p, e) ↦ rw (e, process_publish) (of_type p.typ)
  ]
    where
      of_type :
          (typ : ClientType)
          → P (elim typ as (λ x. Broker) [
            | ClientType.end_user ↦ process_client_publish w c packet b
            | ClientType.router ↦ process_router_publish w c packet b
            | ClientType.remote ↦ b
            | ClientType.cluster ↦ process_remote_publish w c packet b
          ])
      of_type ClientType.end_user = process_client_publish-kept w c packet b v
      of_type ClientType.router = process_router_publish-kept w c packet b v
      of_type ClientType.remote = v
      of_type ClientType.cluster = process_remote_publish-kept w c packet b v
