-- ===== src/Broker/Connect/Clients.antt =====
-- The map of the clients in `handleConnection` of broker/broker.go.
use thoth.Base.{
  ℕ, ◌≡◌, refl, ap, ◌∙◌, inl, inr, Bool, true, false, Option, none, some, List, [], ◌∷◌, ◌++◌,
  Bytes, Bytes-discrete, length, if◌then◌else◌, Bool-cases, Option-cases,
}
use thoth.Packets.{ConnectPacket, ControlPacket}
use thoth.Assoc.{lookup}
use thoth.Heap.{at_address}
use thoth.Topics.Value.{Value}
use thoth.Topics.MemTopics.{subscribers}
use thoth.Broker.{ClientType, Broker, World, write_to, is_none, new_peer, no_found}
use thoth.Broker.Valid.{IsBroker}
use thoth.Broker.Publish.{subscription_of}
use thoth.Broker.Connect.{
  Visit, write_all, publish_message, online_offline_packet, info_of, close_client, close_old,
  register_client, handle_connection,
}
use thoth.Broker.Connect.Admission.{admits_packet, admits, handle_connection-unchanged}
use thoth.Broker.Connect.Takeover.{answer, handle_connection-serves}

clients-write_to :
    (w : World) (packet : ControlPacket) (c : ℕ) (b : Broker)
    → (write_to w packet c b).0.clients ≡ b.clients
unfolding write_to
clients-write_to w packet c b = elim (Option-cases (at_address c b.peers)) [
  | inl e ↦ rw (e, write_to) refl
  | inr (p, e) ↦ rw (e, write_to) refl
]

clients-write_all :
    (w : World) (packet : ControlPacket) (vs : List Value) (b : Broker)
    → (write_all w packet vs b).clients ≡ b.clients
unfolding write_all
clients-write_all w packet [] b = refl
clients-write_all w packet (x ∷ vs) b = elim (Option-cases (subscription_of x b)) [
  | inl e ↦ rw (e, write_all) (clients-write_all w packet vs b)
  | inr (s, e) ↦
      rw (e, write_all)
        (clients-write_all w packet vs (write_to w packet s.client b).0
          ∙ clients-write_to w packet s.client b)
]

clients-publish_message :
    (w : World) (v : Visit) (cid : Bytes) (b : Broker)
    → (publish_message w (online_offline_packet v.payload cid) b).clients ≡ b.clients
unfolding publish_message
clients-publish_message w v cid b =
    let packet = online_offline_packet v.payload cid in
    let out = subscribers packet.topic_name packet.qos b.topics no_found in
    if_clients (is_none out.1) (write_all w (ControlPacket.publish packet) out.0.subs b)
      (clients-write_all w (ControlPacket.publish packet) out.0.subs b)
  where
    if_clients :
        (x : Bool) (u : Broker) → u.clients ≡ b.clients → (if x then u else b).clients ≡ b.clients
    if_clients true u h = h
    if_clients false u h = refl

closed-clients : (x : Option ℕ) (b : Broker) → (close_client x b).clients ≡ b.clients
closed-clients none b = refl
closed-clients (some o) b = refl

register_client-clients :
    (w : World) (v : Visit) (typ : ClientType) (cid : Bytes) (c : ℕ) (b : Broker)
    → (register_client w v typ cid c b).clients ≡ b.clients
unfolding register_client
register_client-clients w v ClientType.end_user cid c b =
    clients-publish_message w v cid (close_old cid b.clients b)
    ∙ closed-clients (lookup Bytes-discrete cid b.clients) b
register_client-clients w v ClientType.router cid c b =
    closed-clients (lookup Bytes-discrete cid b.routes) b
register_client-clients w v ClientType.remote cid c b = refl
register_client-clients w v ClientType.cluster cid c b = refl

-- A connection to a broker with valid pointers, that of an end user as well, does not change the map of
-- the clients: while that map is empty, as a new broker has it, no identifier of an end user leads
-- to a client that could be closed.
pub handle_connection-clients :
    (w : World) (v : Visit) (typ : ClientType) (b : Broker)
    → IsBroker b
    → (handle_connection w v typ b).0.clients ≡ b.clients
handle_connection-clients w v typ b k = of_packet v.packet refl
  where
    let_in :
        (msg : ConnectPacket)
        → v.packet ≡ some (ControlPacket.connect msg)
        → admits v typ ≡ true
        → (handle_connection w v typ b).0.clients ≡ b.clients
    let_in msg e h =
        let (a, x, served) = handle_connection-serves w v typ msg b k e h in
        ap (λ y. y.0.clients) served
        ∙ register_client-clients w v typ msg.client_identifier (length b.peers) (record b {
          sessions = (answer v msg b).store;
          peers = b.peers ++ new_peer typ (info_of msg) a ∷ [];
        })

    kept : admits v typ ≡ false → (handle_connection w v typ b).0.clients ≡ b.clients
    kept h = ap (λ y. y.clients) (handle_connection-unchanged w v typ b h)

    of_packet :
        (o : Option ControlPacket)
        → v.packet ≡ o
        → (handle_connection w v typ b).0.clients ≡ b.clients
    of_packet none e = kept (ap (admits_packet v typ) e)
    of_packet (some (ControlPacket.connect msg)) e = elim (Bool-cases (admits v typ)) [
      | inl h ↦ let_in msg e h
      | inr h ↦ kept h
    ]
    of_packet (some other) e = kept (ap (admits_packet v typ) e)
