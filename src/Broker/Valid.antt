-- ===== src/Broker/Valid.antt =====
-- The validity of the broker's pointers: each leads to an object of its heap. What each change of the
-- store of broker/broker.go does to it.
use thoth.Base.{
  ◌≤◌, none, ℕ, suc, ◌≡◌, ◌<◌, sym, subst, arith, inl, inr, Bool, true, false, List, [], ◌∷◌, ◌++◌,
  Bytes, Bytes-discrete, length, length-append, ltb, if◌then◌else◌, Bool-cases,
}
use thoth.Packets.{PublishPacket}
use thoth.All.{All, All-append, All-map, All-modify, Values, Values-insert}
use thoth.Heap.{modify, length-modify}
use thoth.Sessions.Session.{Session}
use thoth.Topics.Trie.Shape.{IsNode}
use thoth.Topics.Value.{Value}
use thoth.Topics.Snode.Below.{AreBelow, IsNode-le, sinsert-AreBelow, sremove-AreBelow}
use thoth.Topics.MemTopics.{MemTopics, subscribe, unsubscribe, retain, fuel, valid_qos}
use thoth.Topics.MemTopics.Invariant.{IsMemTopics, Call, step, step-IsMemTopics}
use thoth.Topics.MemTopics.Retention.{retain-sroot}
use thoth.Sessions.Store.{MemProvider}
use thoth.Sessions.Pointers.{IsMemProvider}
use thoth.Client.Effects.{apply}
use thoth.Broker.{Peer, Subscription, Broker, with_peer, with_state, new_peer}
use thoth.Broker.Kept.{IsOwn, IsKept}

abbrev pub IsPeer : ℕ → ℕ → Peer → Type 0
IsPeer subs sessions p = Values Bytes-discrete (λ a. a < subs) p.sub_map × (p.session < sessions)

abbrev pub IsSubscription : ℕ → Subscription → Type 0
IsSubscription peers s = s.client < peers

-- The trees are well-formed and have pointers to subscriptions only; a subscription leads to a client;
-- a client leads to subscriptions and to a session; the store of sessions leads to sessions; the maps
-- `clients` and `routes` lead to clients.
abbrev pub IsBroker : Broker → Type 0
IsBroker b =
    IsMemTopics b.topics
    × IsNode (AreBelow (length b.subscriptions)) b.topics.sroot
    × All (IsSubscription (length b.peers)) b.subscriptions
    × All (IsPeer (length b.subscriptions) (length b.sessions.heap)) b.peers
    × Values Bytes-discrete (λ a. a < length b.sessions.heap) b.sessions.st
    × Values Bytes-discrete (λ a. a < length b.peers) b.clients
    × Values Bytes-discrete (λ a. a < length b.peers) b.routes

pub if-IsBroker :
    (x : Bool) (u v : Broker) → IsBroker u → IsBroker v → IsBroker (if x then u else v)
if-IsBroker true u v h k = h
if-IsBroker false u v h k = k

pub with_peer-IsBroker :
    (c : ℕ) (f : Peer → Peer) (b : Broker)
    → ((p : Peer)
        → IsPeer (length b.subscriptions) (length b.sessions.heap) p
        → IsPeer (length b.subscriptions) (length b.sessions.heap) (f p))
    → IsBroker b
    → IsBroker (with_peer c f b)
with_peer-IsBroker c f b keeps (t, n, s, p, m, cs, rs) = (
  t,
  n,
  subst (λ l. All (IsSubscription l) b.subscriptions) (sym (length-modify c f b.peers)) s,
  All-modify (IsPeer (length b.subscriptions) (length b.sessions.heap)) c f b.peers keeps p,
  m,
  subst (λ l. Values Bytes-discrete (λ a. a < l) b.clients) (sym (length-modify c f b.peers)) cs,
  subst (λ l. Values Bytes-discrete (λ a. a < l) b.routes) (sym (length-modify c f b.peers)) rs,
)

subscribe-tree :
    (n : ℕ) (topic : Bytes) (qos a : ℕ) (t : MemTopics)
    → a < n
    → IsNode (AreBelow n) t.sroot
    → IsNode (AreBelow n) (subscribe topic qos (Value.pointer a) t).0.sroot
unfolding subscribe
subscribe-tree n topic qos a t l w = elim (Bool-cases (valid_qos qos)) [
  | inr v ↦ rw (v, subscribe) w
  | inl v ↦
      rw (v, subscribe)
        (sinsert-AreBelow n (fuel topic) topic (if ltb 2 qos then 2 else qos) (Value.pointer a)
          t.sroot l w)
]

unsubscribe-tree :
    (n : ℕ) (topic : Bytes) (v : Value) (t : MemTopics)
    → IsNode (AreBelow n) t.sroot
    → IsNode (AreBelow n) (unsubscribe topic v t).0.sroot
unfolding unsubscribe
unsubscribe-tree n topic v t w = sremove-AreBelow n (fuel topic) topic v t.sroot w

pub unsubscribe-IsBroker :
    (topic : Bytes) (v : Value) (b : Broker)
    → IsBroker b
    → IsBroker (record b { topics = (unsubscribe topic v b.topics).0 })
unfolding step
unsubscribe-IsBroker topic v b (t, n, s, p, m, cs, rs) = (
  step-IsMemTopics (Call.unsubscribes topic v) b.topics t,
  unsubscribe-tree (length b.subscriptions) topic v b.topics n,
  s,
  p,
  m,
  cs,
  rs,
)

retain-tree :
    (n : ℕ) (packet : PublishPacket) (t : MemTopics)
    → IsNode (AreBelow n) t.sroot
    → IsNode (AreBelow n) (retain packet t).0.sroot
retain-tree n packet t w = subst (IsNode (AreBelow n)) (sym (retain-sroot packet t)) w

pub retain-IsBroker :
    (packet : PublishPacket) (b : Broker)
    → IsBroker b
    → IsBroker (record b { topics = (retain packet b.topics).0 })
unfolding step
retain-IsBroker packet b (t, n, s, p, m, cs, rs) = (
  step-IsMemTopics (Call.retains packet) b.topics t,
  retain-tree (length b.subscriptions) packet b.topics n,
  s,
  p,
  m,
  cs,
  rs,
)

-- A subscription of a client that is there, made and subscribed.
pub allocate-IsBroker :
    (s : Subscription) (topic : Bytes) (qos : ℕ) (b : Broker)
    → s.client < length b.peers
    → IsBroker b
    → IsBroker (record b {
      subscriptions = b.subscriptions ++ s ∷ [];
      topics = (subscribe topic qos (Value.pointer (length b.subscriptions)) b.topics).0;
    })
unfolding step
allocate-IsBroker s topic qos b l (t, n, ss, ps, m, cs, rs) = rw (longer s b.subscriptions) (
  step-IsMemTopics (Call.subscribes topic qos (Value.pointer (length b.subscriptions))) b.topics t,
  subscribe-tree (suc (length b.subscriptions)) topic qos (length b.subscriptions) b.topics
      (omega arith)
      (IsNode-le (length b.subscriptions) (suc (length b.subscriptions)) (omega arith)
        b.topics.sroot n),
  All-append (IsSubscription (length b.peers)) b.subscriptions (s ∷ []) ss (l, tt),
  All-map (IsPeer (length b.subscriptions) (length b.sessions.heap))
      (IsPeer (suc (length b.subscriptions)) (length b.sessions.heap))
      (λ p h. (
        All-map (λ e. e.1 < length b.subscriptions) (λ e. e.1 < suc (length b.subscriptions))
            (λ e k. omega (arith, k)) p.sub_map h.0,
        h.1,
      ))
      b.peers ps,
  m,
  cs,
  rs,
)
  where
    longer : (s : Subscription) (ss : List Subscription) → length (ss ++ s ∷ []) ≡ suc (length ss)
    longer s ss = omega (arith, length-append ss (s ∷ []))

pub session-IsBroker :
    (a : ℕ) (f : Session → Session) (b : Broker)
    → IsBroker b
    → IsBroker (record b { sessions = record b.sessions { heap = modify a f b.sessions.heap } })
session-IsBroker a f b (t, n, s, p, m, cs, rs) =
    rw (length-modify a f b.sessions.heap) (t, n, s, p, m, cs, rs)

-- A peer with a session of the store joins the others.
pub joined-IsBroker :
    (p : Peer) (b : Broker)
    → IsPeer (length b.subscriptions) (length b.sessions.heap) p
    → IsBroker b
    → IsBroker (record b { peers = b.peers ++ p ∷ [] })
joined-IsBroker p b h (t, n, ss, ps, m, cs, rs) = (
  t,
  n,
  All-map (IsSubscription (length b.peers)) (IsSubscription (length (b.peers ++ p ∷ [])))
      (λ s k. omega (arith, k, length-append b.peers (p ∷ []))) b.subscriptions ss,
  All-append (IsPeer (length b.subscriptions) (length b.sessions.heap)) b.peers (p ∷ []) ps (h, tt),
  m,
  more b.clients cs,
  more b.routes rs,
)
  where
    more :
        (m : List (Bytes × ℕ))
        → Values Bytes-discrete (λ a. a < length b.peers) m
        → Values Bytes-discrete (λ a. a < length (b.peers ++ p ∷ [])) m
    more m h =
        All-map (λ e. e.1 < length b.peers) (λ e. e.1 < length (b.peers ++ p ∷ []))
          (λ e k. omega (arith, k, length-append b.peers (p ∷ []))) m h

-- The store of sessions grows.
pub grown-IsBroker :
    (store : MemProvider) (b : Broker)
    → IsMemProvider store
    → length b.sessions.heap ≤ length store.heap
    → IsBroker b
    → IsBroker (record b { sessions = store })
grown-IsBroker store b h l (t, n, ss, ps, m, cs, rs) = (
  t,
  n,
  ss,
  All-map (IsPeer (length b.subscriptions) (length b.sessions.heap))
      (IsPeer (length b.subscriptions) (length store.heap)) (λ p k. (k.0, omega (arith, k.1, l)))
      b.peers ps,
  h,
  cs,
  rs,
)

owned-IsPeer : (n m : ℕ) (p q : Peer) → IsOwn n p q → IsPeer n m p → IsPeer n m q
owned-IsPeer n m p q (t, i, s, a, h) k = (h k.0, subst (λ x. x < m) (sym a) k.1)

pub IsBroker-IsKept : IsKept IsBroker
IsBroker-IsKept = record {
  provider = λ b v. v.4;
  acts = λ c e b v. with_peer-IsBroker c (with_state (apply e)) b (λ p h. h) v;
  owns = λ c f b own v.
      with_peer-IsBroker c f b
        (λ p. owned-IsPeer (length b.subscriptions) (length b.sessions.heap) p (f p) (own p)) v;
  forgets_will = λ c b v.
      with_peer-IsBroker c (λ p. record p { info = record p.info { will_msg = none } }) b (λ p h. h)
        v;
  retains = retain-IsBroker;
  unsubscribes = unsubscribe-IsBroker;
  subscribes = allocate-IsBroker;
  changes_session = session-IsBroker;
  opens = grown-IsBroker;
  joins = λ typ info a b l v. joined-IsBroker (new_peer typ info a) b (tt, l) v;
  notes = λ nodes bridged b v. v;
  routed = λ cid c b l v. (
    v.0,
    v.1,
    v.2,
    v.3,
    v.4,
    v.5,
    Values-insert Bytes-discrete (λ a. a < length b.peers) cid c b.routes l v.6,
  );
}
