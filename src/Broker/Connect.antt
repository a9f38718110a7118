-- ===== src/Broker/Connect.antt =====
-- `handleConnection` of broker/broker.go with `OnlineOfflineNotification` and `PublishMessage`, which
-- it calls, and `SendConnect` and `NewInfo` of broker/info.go.
pub mod Admission
pub mod Takeover
pub mod Clients
pub mod Authenticated
use thoth.Base.{
  ℕ, suc, Bool, true, false, not, ◌&&◌, Option, none, some, List, [], ◌∷◌, ◌++◌, Bytes,
  Bytes-discrete, codes, length, ◌==◌, if◌then◌else◌,
}
use thoth.Packets.{ConnectPacket, ConnackPacket, PublishPacket, ControlPacket}
use thoth.Assoc.{lookup, insert}
use thoth.Heap.{at_address}
use thoth.Sessions.Store as Store
use thoth.Topics.Value.{Value}
use thoth.Topics.MemTopics.{subscribers}
use thoth.Client as Client
use thoth.Broker.{
  ClientType, Info, Peer, Broker, World, with_peer, with_state, write_to, is_end_user, is_none,
  new_peer, no_found,
}
use thoth.Broker.Publish.{subscription_of, broker_info_topic}

-- The loop of `PublishMessage`.
unfoldable pub write_all : World → ControlPacket → List Value → Broker → Broker
write_all w packet [] b = b
write_all w packet (v ∷ subs) b =
    write_all w packet subs
      (elim (subscription_of v b) [ none ↦ b | some s ↦ (write_to w packet s.client b).0 ])

unfoldable pub publish_message : World → PublishPacket → Broker → Broker
publish_message w packet b =
    let (out, e) = subscribers packet.topic_name packet.qos b.topics no_found in
    if is_none e then write_all w (ControlPacket.publish packet) out.subs b else b

-- The notification, with its payload, which has the time in it, as an argument.
abbrev pub online_offline_packet : Bytes → Bytes → PublishPacket
online_offline_packet payload client_id = record {
  message_id = 0;
  topic_name = codes "/" ++ client_id;
  qos = 0;
  retain = false;
  dup = false;
  payload = payload;
}

abbrev pub online_offline_notification : World → Bytes → Bytes → Broker → Broker
online_offline_notification w payload client_id b =
    publish_message w (online_offline_packet payload client_id) b

-- What the connection gives and asks: the packet read, `Validate` of the paho library, `CheckConnect`
-- of the authentication, whether the CONNACK can be written, the random identifier of a session,
-- and the payload of the notification.
pub record Visit : Type 0 where
  pub packet : Option ControlPacket
  pub validate : ConnectPacket → ℕ
  pub check_connect : Bytes → Bytes → Bool
  pub connack_written : Bool
  pub generated : Bytes
  pub payload : Bytes

-- `log.Fatal` ends the program; a refusal and an error end the call; a client that was accepted goes
-- on with `readLoop`.
pub data Outcome : Type 0 where
  exited rejected : Outcome
  refused : ConnackPacket → Outcome
  accepted : ConnackPacket → ℕ → Outcome

abbrev pub accepted_code : ℕ
accepted_code = 0

abbrev pub bad_username_or_password : ℕ
bad_username_or_password = 4

-- The will of a CONNECT, with the will's QoS.
abbrev pub will_msg_of : ConnectPacket → Option PublishPacket
will_msg_of msg =
    if msg.will_flag
    then some (record {
      message_id = 0;
      topic_name = msg.will_topic;
      qos = msg.will_qos;
      retain = msg.will_retain;
      dup = msg.dup;
      payload = msg.will_message;
    })
    else none

abbrev pub info_of : ConnectPacket → Info
info_of msg = record {
  client_id = msg.client_identifier;
  username = msg.username;
  password = msg.password;
  keepalive = msg.keepalive;
  will_msg = will_msg_of msg;
}

abbrev pub connack_of : ConnectPacket → ℕ → ConnackPacket
connack_of msg code = record { session_present = msg.clean_session; return_code = code }

abbrev pub close_client : Option ℕ → Broker → Broker
close_client none b = b
close_client (some o) b = with_peer o (with_state Client.close) b

-- `ol.Close()` for the client that a map has under the identifier.
abbrev pub close_old : Bytes → List (Bytes × ℕ) → Broker → Broker
close_old cid m b = close_client (lookup Bytes-discrete cid m) b

-- The `switch` over `typ`: a client is looked up in `b.clients`, which nothing is stored in; a
-- router is looked up and stored in `b.routes`.
unfoldable pub register_client : World → Visit → ClientType → Bytes → ℕ → Broker → Broker
register_client w v ClientType.end_user cid c b =
    online_offline_notification w v.payload cid (close_old cid b.clients b)
register_client w v ClientType.router cid c b = record (close_old cid b.routes b) {
  routes = insert Bytes-discrete cid c b.routes;
}
register_client w v ClientType.remote cid c b = b
register_client w v ClientType.cluster cid c b = b

-- `c := &client{...}` with its session, and what follows up to `readLoop`.
abbrev pub serve : World → Visit → ClientType → ConnectPacket → ℕ → Broker → Broker × Outcome
serve w v typ msg session b =
    let c = length b.peers in
    (
      register_client w v typ msg.client_identifier c
          (record b { peers = b.peers ++ new_peer typ (info_of msg) session ∷ [] }),
      Outcome.accepted (connack_of msg accepted_code) c,
    )

-- An error of `getSession` ends the call.
abbrev pub serve_answer :
    World → Visit → ClientType → ConnectPacket → Option ℕ → Bool → Broker → Broker × Outcome
serve_answer w v typ msg none fine b = (b, Outcome.rejected)
serve_answer w v typ msg (some session) false b = (b, Outcome.rejected)
serve_answer w v typ msg (some session) true b = serve w v typ msg session b

unfoldable pub open_client : World → Visit → ClientType → ConnectPacket → Broker → Broker × Outcome
open_client w v typ msg b =
    let a = Store.get_session v.generated msg (connack_of msg accepted_code) b.sessions in
    serve_answer w v typ msg a.session (is_none a.error) (record b { sessions = a.store })

-- A CONNACK with a code that refuses: where it cannot be written, `log.Fatal` ends the program after
-- a failed validation, but not after a failed authentication.
unfoldable pub handle_connect :
    World → Visit → ClientType → ConnectPacket → Broker → Broker × Outcome
handle_connect w v typ msg b =
    if not (v.validate msg == accepted_code)
    then (
      b,
      (if v.connack_written
          then Outcome.refused (connack_of msg (v.validate msg))
          else Outcome.exited),
    )
    else if is_end_user typ && not (v.check_connect msg.username msg.password)
    then (
      b,
      (if v.connack_written
          then Outcome.refused (connack_of msg bad_username_or_password)
          else Outcome.rejected),
    )
    else if v.connack_written
    then open_client w v typ msg b
    else (b, Outcome.exited)

-- An error of `ReadPacket` and a packet that is no CONNECT end the program.
abbrev pub handle_packet :
    World → Visit → ClientType → Option ControlPacket → Broker → Broker × Outcome
handle_packet w v typ none b = (b, Outcome.exited)
handle_packet w v typ (some (ControlPacket.connect msg)) b = handle_connect w v typ msg b
handle_packet w v typ (some other) b = (b, Outcome.exited)

unfoldable pub handle_connection : World → Visit → ClientType → Broker → Broker × Outcome
handle_connection w v typ b = handle_packet w v typ v.packet b
