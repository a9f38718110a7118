-- ===== src/Broker.antt =====
-- The state of `Broker` of broker/broker.go and of the clients it serves, as one store: a `*client`,
-- a `*subscription` and a `*Session` are addresses in the heaps of their kinds. The handlers take
-- one message at a time; a lock makes each call of a manager one step.
pub mod Subscribe
pub mod Unsubscribe
pub mod Process
pub mod Connect
pub mod Valid
pub mod Kept
pub mod Invariant
pub mod Publish
pub mod Flow
pub mod Accept
pub mod System
pub mod Remotes
pub mod Groups
mod Examples
use thoth.Base.{ℕ, Bool, true, false, Option, none, some, List, [], ◌∷◌, ◌++◌, Bytes}
use thoth.Packets.{PublishPacket, ControlPacket}
use thoth.Heap.{at_address, modify}
use thoth.SubMap.{SubMap}
use thoth.Topics.Snode.{Found}
use thoth.Topics.MemTopics.{MemTopics}
use thoth.Topics.MemTopics as MemTopics
use thoth.Sessions.Store.{MemProvider}
use thoth.Sessions.Store as Store
use thoth.Client.{Client}
use thoth.Client as Client

-- CLIENT, ROUTER, REMOTE and CLUSTER.
pub data ClientType : Type 0 where
  end_user router remote cluster : ClientType

pub record Info : Type 0 where
  pub client_id : Bytes
  pub username : Bytes
  pub password : Bytes
  pub keepalive : ℕ
  pub will_msg : Option PublishPacket

-- The fields of `client`: those of the handshakes are in `state`. A peer has been through
-- `getSession`, so that `session` is the address of a session. `hung_up` tells that the
-- connection was closed behind the client's back, with the field `conn` left as it is.
pub record Peer : Type 0 where
  pub typ : ClientType
  pub info : Info
  pub state : Client
  pub found : Found
  pub sub_map : List (Bytes × ℕ)
  pub rmsgs : List PublishPacket
  pub route_sub_map : SubMap
  pub session : ℕ
  pub hung_up : Bool

-- `client` is the address of a peer.
pub record Subscription : Type 0 where
  pub client : ℕ
  pub topic : Bytes
  pub qos : ℕ
  pub share : Bool
  pub group_name : Bytes

-- `QueueMessage` of rabbitmq/rabbitmq.go.
pub record QueueMessage : Type 0 where
  pub client_id : Bytes
  pub topic : Bytes
  pub payload : Bytes
  pub timestamp : ℕ

-- `clients` and `routes` are the maps from an identifier to a client; `nodes` is the JSON map that
-- `ProcessInfo` stored last; `bridged` is what was sent to the channel of `PublishToStream`.
pub record Broker : Type 0 where
  pub peers : List Peer
  pub subscriptions : List Subscription
  pub topics : MemTopics
  pub sessions : MemProvider
  pub clients : List (Bytes × ℕ)
  pub routes : List (Bytes × ℕ)
  pub nodes : Option Bytes
  pub bridged : List QueueMessage

-- `NewBroker`, with the two providers named "mem".
abbrev pub new_broker : Broker
new_broker = record {
  peers = [];
  subscriptions = [];
  topics = MemTopics.new_mem_provider;
  sessions = Store.new_mem_provider;
  clients = [];
  routes = [];
  nodes = none;
  bridged = [];
}

abbrev pub no_found : Found
no_found = record { subs = []; qoss = [] }

-- The peer that `handleConnection` makes, with its session.
abbrev pub new_peer : ClientType → Info → ℕ → Peer
new_peer typ info session = record {
  typ = typ;
  info = info;
  state = Client.init;
  found = no_found;
  sub_map = [];
  rmsgs = [];
  route_sub_map = [];
  session = session;
  hung_up = false;
}

-- A change of the handshakes of a peer.
abbrev pub with_state : (Client → Client) → Peer → Peer
with_state f p = record p { state = f p.state }

abbrev pub with_peer : ℕ → (Peer → Peer) → Broker → Broker
with_peer c f b = record b { peers = modify c f b.peers }

-- What the handlers ask the world: whether a write to the connection of a client succeeds, the time
-- in seconds and in milliseconds, `rand.Intn`, `BridgeEnabled` of the configuration, and the map
-- under "data" of a JSON text, as a JSON text.
pub record World : Type 0 where
  pub writes : ℕ → ControlPacket → Bool
  pub now : ℕ
  pub millis : ℕ
  pub intn : ℕ → ℕ
  pub bridge_enabled : Bool
  pub data_map : Bytes → Option Bytes

abbrev pub is_router : ClientType → Bool
is_router ClientType.router = true
is_router _ = false

abbrev pub is_end_user : ClientType → Bool
is_end_user ClientType.end_user = true
is_end_user _ = false

abbrev pub is_none {ℓ} : {A : Type ℓ} → Option A → Bool
is_none none = true
is_none (some a) = false

-- `WritePacket` to the client at an address, and whether it returned no error. Where there is no
-- client there is no such call.
unfoldable pub write_to : World → ControlPacket → ℕ → Broker → Broker × Bool
write_to w packet c b = elim (at_address c b.peers) [
  | none ↦ (b, false)
  | some p ↦
      let (s, e) = Client.write_packet (w.writes c) packet p.state in
      (with_peer c (λ q. record q { state = s }) b, is_none e)
]

abbrev pub is_gone : Option Peer → Bool
is_gone none = true
is_gone (some p) = Client.is_disconnected p.state.status

-- `c.status == Disconnected`
abbrev pub is_client_disconnected : ℕ → Broker → Bool
is_client_disconnected c b = is_gone (at_address c b.peers)
