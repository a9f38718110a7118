-- ===== src/Broker/Invariant/Connected.antt =====
-- The validity of the pointers and the connections: `handleConnection` of broker/broker.go.
use thoth.Base.{
  ℕ, ◌<◌, sym, subst, arith, ◌++◌, length-append, inl, inr, Bool, true, false, not, ◌&&◌, Option,
  none, some, List, [], ◌∷◌, Bytes, Bytes-discrete, length, ◌==◌, if◌then◌else◌, Option-cases,
}
use thoth.Packets.{ConnectPacket, PublishPacket, ControlPacket}
use thoth.Heap.{length-modify}
use thoth.Assoc.{lookup, insert}
use thoth.Sessions.Store as Store
use thoth.Sessions.Store.{MemProvider}
use thoth.Sessions.Pointers.{IsSession, IsAnswer, get_session-IsAnswer}
use thoth.Topics.Value.{Value}
use thoth.Topics.MemTopics.{subscribers}
use thoth.Client.Effects.{Effect, apply}
use thoth.Broker.{ClientType, Broker, World, is_none, is_end_user, no_found, with_state, new_peer}
use thoth.Broker.Publish.{subscription_of}
use thoth.Broker.Kept.{IsKept, if-kept}
use thoth.Broker.Invariant.Published.{write_to-kept}
use thoth.Broker.Connect.{
  Visit, Outcome, write_all, publish_message, online_offline_packet, info_of, connack_of,
  accepted_code, close_client, close_old, register_client, serve_answer, open_client,
  handle_connect, handle_packet, handle_connection,
}

module _ (P : Broker → Type 0) (kept : IsKept P) where
  write_all-kept :
      (w : World) (packet : ControlPacket) (vs : List Value) (b : Broker)
      → P b
      → P (write_all w packet vs b)
  unfolding write_all
  write_all-kept w packet [] b v = v
  write_all-kept w packet (x ∷ vs) b v = elim (Option-cases (subscription_of x b)) [
    | inl e ↦ rw (e, write_all) (write_all-kept w packet vs b v)
    | inr (s, e) ↦
        rw (e, write_all)
          (write_all-kept w packet vs _ (write_to-kept P kept w packet s.client b v))
  ]

  publish_message-kept :
      (w : World) (packet : PublishPacket) (b : Broker) → P b → P (publish_message w packet b)
  unfolding publish_message
  publish_message-kept w packet b v =
      if-kept P (is_none (subscribers packet.topic_name packet.qos b.topics no_found).1) _ b
        (write_all-kept w (ControlPacket.publish packet)
          (subscribers packet.topic_name packet.qos b.topics no_found).0.subs b v)
        v

  close_old-kept : (cid : Bytes) (m : List (Bytes × ℕ)) (b : Broker) → P b → P (close_old cid m b)
  close_old-kept cid m b v = closed (lookup Bytes-discrete cid m)
    where
      closed : (o : Option ℕ) → P (close_client o b)
      closed none = v
      closed (some o) = kept.acts o Effect.closing b v

  register_client-kept :
      (w : World) (x : Visit) (typ : ClientType) (cid : Bytes) (c : ℕ) (b : Broker)
      → c < length b.peers
      → P b
      → P (register_client w x typ cid c b)
  unfolding register_client
  register_client-kept w x ClientType.end_user cid c b l v =
      publish_message-kept w (online_offline_packet x.payload cid) (close_old cid b.clients b)
        (close_old-kept cid b.clients b v)
  register_client-kept w x ClientType.router cid c b l v =
      routed (lookup Bytes-discrete cid b.routes)
    where
      routed :
          (o : Option ℕ)
          → P (record (close_client o b) { routes = insert Bytes-discrete cid c b.routes })
      routed none = kept.routed cid c b l v
      routed (some o) =
          kept.routed cid c (close_client (some o) b)
            (subst (λ n. c < n) (sym (length-modify o (with_state (apply Effect.closing)) b.peers))
              l)
            (kept.acts o Effect.closing b v)
  register_client-kept w x ClientType.remote cid c b l v = v
  register_client-kept w x ClientType.cluster cid c b l v = v

  serve_answer-kept :
      (w : World) (x : Visit) (typ : ClientType) (msg : ConnectPacket) (o : Option ℕ) (fine : Bool)
      (b : Broker)
      → IsSession (length b.sessions.heap) o
      → P b
      → P (serve_answer w x typ msg o fine b).0
  serve_answer-kept w x typ msg none fine b l v = absurd l
  serve_answer-kept w x typ msg (some s) false b l v = v
  serve_answer-kept w x typ msg (some s) true b l v =
      register_client-kept w x typ msg.client_identifier (length b.peers) _ (more b s)
        (kept.joins typ (info_of msg) s b l v)
    where
      more :
          (b : Broker) (s : ℕ)
          → length b.peers < length (b.peers ++ new_peer typ (info_of msg) s ∷ [])
      more b s = omega (arith, length-append b.peers (new_peer typ (info_of msg) s ∷ []))

  open_client-kept :
      (w : World) (x : Visit) (typ : ClientType) (msg : ConnectPacket) (b : Broker)
      → P b
      → P (open_client w x typ msg b).0
  unfolding open_client
  open_client-kept w x typ msg b v =
      let a = Store.get_session x.generated msg (connack_of msg accepted_code) b.sessions in
      let k : IsAnswer b.sessions a =
        get_session-IsAnswer x.generated msg (connack_of msg accepted_code) b.sessions
          (kept.provider b v) in
      serve_answer-kept w x typ msg a.session (is_none a.error) (record b { sessions = a.store })
        k.2 (kept.opens a.store b k.0 k.1 v)

  handle_connect-kept :
      (w : World) (x : Visit) (typ : ClientType) (msg : ConnectPacket) (b : Broker)
      → P b
      → P (handle_connect w x typ msg b).0
  unfolding handle_connect
  handle_connect-kept w x typ msg b v = either (not (x.validate msg == accepted_code)) _ _ v (
      either (is_end_user typ && not (x.check_connect msg.username msg.password)) _ _ v
        (either x.connack_written _ _ (open_client-kept w x typ msg b v) v))
    where
      either : (y : Bool) (p q : Broker × Outcome) → P p.0 → P q.0 → P (if y then p else q).0
      either true p q h k = h
      either false p q h k = k

  pub handle_connection-kept :
      (w : World) (x : Visit) (typ : ClientType) (b : Broker)
      → P b
      → P (handle_connection w x typ b).0
  unfolding handle_connection
  handle_connection-kept w x typ b v = of_packet x.packet
    where
      of_packet : (o : Option ControlPacket) → P (handle_packet w x typ o b).0
      of_packet none = v
      of_packet (some (ControlPacket.connect msg)) = handle_connect-kept w x typ msg b v
      of_packet (some other) = v
