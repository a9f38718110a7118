-- ===== src/Broker/Kept.antt =====
-- What a property of the broker has to withstand: the changes of the store of broker/broker.go that its
-- handlers are made of. A property that withstands them withstands every handler.
use thoth.Base.{
  ℕ, ◌≡◌, ◌≤◌, ◌<◌, Bool, List, [], ◌∷◌, ◌++◌, Bytes, Bytes-discrete, Option, none, true, false,
  length, if◌then◌else◌,
}
use thoth.Packets.{PublishPacket}
use thoth.All.{Values}
use thoth.Assoc.{insert}
use thoth.Heap.{modify}
use thoth.Sessions.Session.{Session}
use thoth.Sessions.Store.{MemProvider}
use thoth.Sessions.Pointers.{IsMemProvider}
use thoth.Topics.Value.{Value}
use thoth.Topics.MemTopics.{subscribe, unsubscribe, retain}
use thoth.Client.Effects.{Effect, apply}
use thoth.Broker.{
  ClientType, Info, Peer, Subscription, QueueMessage, Broker, with_peer, with_state, new_peer,
}

-- The second is the first but for what is found and collected, the maps of subscriptions, where each
-- pointer still leads to one of n subscriptions, and whether the connection was hung up.
abbrev pub IsOwn : ℕ → Peer → Peer → Type 0
IsOwn n p q =
    (q.typ ≡ p.typ)
    × (q.info ≡ p.info)
    × (q.state ≡ p.state)
    × (q.session ≡ p.session)
    × (Values Bytes-discrete (λ a. a < n) p.sub_map → Values Bytes-discrete (λ a. a < n) q.sub_map)

pub record IsKept (P : Broker → Type 0) : Type 0 where
  pub provider : (b : Broker) → P b → IsMemProvider b.sessions
  pub acts : (c : ℕ) (e : Effect) (b : Broker) → P b → P (with_peer c (with_state (apply e)) b)
  pub owns :
      (c : ℕ) (f : Peer → Peer) (b : Broker)
      → ((p : Peer) → IsOwn (length b.subscriptions) p (f p))
      → P b
      → P (with_peer c f b)
  pub forgets_will :
      (c : ℕ) (b : Broker)
      → P b
      → P (with_peer c (λ p. record p { info = record p.info { will_msg = none } }) b)
  pub retains :
      (packet : PublishPacket) (b : Broker)
      → P b
      → P (record b { topics = (retain packet b.topics).0 })
  pub unsubscribes :
      (topic : Bytes) (v : Value) (b : Broker)
      → P b
      → P (record b { topics = (unsubscribe topic v b.topics).0 })
  pub subscribes :
      (s : Subscription) (topic : Bytes) (qos : ℕ) (b : Broker)
      → s.client < length b.peers
      → P b
      → P (record b {
        subscriptions = b.subscriptions ++ s ∷ [];
        topics = (subscribe topic qos (Value.pointer (length b.subscriptions)) b.topics).0;
      })
  pub changes_session :
      (a : ℕ) (f : Session → Session) (b : Broker)
      → P b
      → P (record b { sessions = record b.sessions { heap = modify a f b.sessions.heap } })
  pub opens :
      (store : MemProvider) (b : Broker)
      → IsMemProvider store
      → length b.sessions.heap ≤ length store.heap
      → P b
      → P (record b { sessions = store })
  pub joins :
      (typ : ClientType) (info : Info) (a : ℕ) (b : Broker)
      → a < length b.sessions.heap
      → P b
      → P (record b { peers = b.peers ++ new_peer typ info a ∷ [] })
  pub notes :
      (nodes : Option Bytes) (bridged : List QueueMessage) (b : Broker)
      → P b
      → P (record b { nodes = nodes; bridged = bridged })
  pub routed :
      (cid : Bytes) (c : ℕ) (b : Broker)
      → c < length b.peers
      → P b
      → P (record b { routes = insert Bytes-discrete cid c b.routes })

pub if-kept : (P : Broker → Type 0) (x : Bool) (u v : Broker) → P u → P v → P (if x then u else v)
if-kept P true u v h k = h
if-kept P false u v h k = k

-- The property, and the client is there.
abbrev pub IsServing : (Broker → Type 0) → ℕ → Broker → Type 0
IsServing P c b = P b × (c < length b.peers)
