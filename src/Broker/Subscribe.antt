-- ===== src/Broker/Subscribe.antt =====
-- SUBSCRIBE in broker/subscribe.go. `qoss[i]` is read beside `topics[i]`: the packet's reader fills
-- the two slices together, so the loop goes over pairs.
pub mod Grants
pub mod Added
pub mod Collected
pub mod Shares
pub mod Codes
pub mod Replies
pub mod Views
pub mod Kept
use thoth.Base.{
  ℕ, suc, Bool, true, false, Option, none, some, List, [], ◌∷◌, ◌++◌, Bytes, Bytes-discrete, codes,
  drop, length, if◌then◌else◌,
}
use thoth.Packets.{PublishPacket, SubscribePacket, ControlPacket}
use thoth.Assoc.{lookup, insert, remove}
use thoth.Heap.{at_address, modify}
use thoth.SubMap.{add_sub_map}
use thoth.Sessions.Session as Session
use thoth.Topics.Value.{Value}
use thoth.Topics.MemTopics.{qos_failure, subscribe, unsubscribe, retained}
use thoth.Broker.{
  ClientType, Peer, Subscription, Broker, World, with_peer, write_to, is_client_disconnected,
  is_none,
}
use thoth.Broker.Publish.{has_prefix}
use thoth.Broker.Groups.{find_group}

abbrev pub zip {ℓ} : {A B : Type ℓ} → List A → List B → List (A × B)
zip [] ys = []
zip (x ∷ xs) [] = []
zip (x ∷ xs) (y ∷ ys) = (x, y) ∷ zip xs ys

abbrev pub share_prefix : Bytes
share_prefix = codes "$share/"

abbrev pub shared_of : Option (Bytes × Bytes) → Option (Bytes × Bool × Bytes)
shared_of none = none
shared_of (some (name, topic)) = some (topic, true, name)

-- The topic, `share` and `groupName` of a filter; none where a shared filter is malformed.
unfoldable pub parse_share : Bytes → Option (Bytes × Bool × Bytes)
parse_share topic =
    if has_prefix topic share_prefix
    then shared_of (find_group (drop (length share_prefix) topic))
    else some (topic, false, [])

abbrev pub new_subscription : ℕ → ℕ → Bytes × Bool × Bytes → Subscription
new_subscription c qos (topic, share, group_name) = record {
  client = c;
  topic = topic;
  qos = qos;
  share = share;
  group_name = group_name;
}

-- `c.topicsMgr.Unsubscribe([]byte(sub.topic), sub)` for the subscription at an address.
unfoldable pub drop_subscription : ℕ → Broker → Broker
drop_subscription a b = elim (at_address a b.subscriptions) [
  | none ↦ b
  | some s ↦ record b { topics = (unsubscribe s.topic (Value.pointer a) b.topics).0 }
]

abbrev pub forget : ℕ → Bytes → Broker → Broker
forget c t = with_peer c λ p. record p { sub_map = remove Bytes-discrete t p.sub_map }

-- `c.subMap[t]`
abbrev pub sub_in : Bytes → Option Peer → Option ℕ
sub_in t none = none
sub_in t (some p) = lookup Bytes-discrete t p.sub_map

abbrev pub find_sub : ℕ → Bytes → Broker → Option ℕ
find_sub c t b = sub_in t (at_address c b.peers)

-- `if oldSub, exist := c.subMap[t]; exist { ... }`
unfoldable pub replace_old : ℕ → Bytes → Broker → Broker
replace_old c t b = elim (find_sub c t b) [ none ↦ b | some a ↦ forget c t (drop_subscription a b) ]

-- `sub := &subscription{...}`, at the address that the heap has next.
abbrev pub allocate : Subscription → Broker → Broker
allocate s b = record b { subscriptions = b.subscriptions ++ s ∷ [] }

-- `c.session.AddTopic(t, qos)` or another change of the session of a client.
abbrev pub on_session : (Session.Session → Session.Session) → Broker → Option Peer → Broker
on_session f b none = b
on_session f b (some p) = record b {
  sessions = record b.sessions { heap = modify p.session f b.sessions.heap };
}

unfoldable pub with_session : ℕ → (Session.Session → Session.Session) → Broker → Broker
with_session c f b = on_session f b (at_address c b.peers)

-- `c.topicsMgr.Retained([]byte(topic), &c.rmsgs)`
abbrev pub collect_retained : ℕ → Bytes → Broker → Broker
collect_retained c topic b =
    with_peer c (λ p. record p { rmsgs = (retained topic b.topics p.rmsgs).0 }) b

-- What a client does once the tree has its subscription.
abbrev pub keep_client_sub : ℕ → Bytes → ℕ → Bytes → ℕ → Broker → Broker
keep_client_sub c t qos topic a b = collect_retained c topic (
    with_session c (λ s. (Session.add_topic t qos s).0)
      (with_peer c (λ p. record p { sub_map = insert Bytes-discrete t a p.sub_map }) b))

-- `c.topicsMgr.Subscribe`, and the code for the SUBACK: that of a failure if there is an error.
abbrev pub subscribe_new :
    (ℕ → Broker → Broker) → ℕ → ℕ → Bytes × Bool × Bytes → Broker → Broker × ℕ
subscribe_new keep c qos g b =
    let a = length b.subscriptions in
    let b' = allocate (new_subscription c qos g) b in
    let (t, rqos, e) = subscribe g.0 qos (Value.pointer a) b.topics in
    if is_none e
    then (keep a (record b' { topics = t }), rqos)
    else (record b' { topics = t }, qos_failure)

-- One round of the loop in `processClientSubscribe`.
unfoldable pub client_round : World → ℕ → Bytes × ℕ → Broker → Broker × ℕ
client_round w c (t, qos) b = elim (parse_share t) [
  | none ↦ (b, qos_failure)
  | some g ↦ subscribe_new (keep_client_sub c t qos g.0) c qos g (replace_old c t b)
]

abbrev pub keep_router_sub : ℕ → Bytes → Bytes → ℕ → Broker → Broker
keep_router_sub c t topic a = with_peer c λ p. record p {
  sub_map = insert Bytes-discrete t a p.sub_map;
  route_sub_map = add_sub_map topic p.route_sub_map;
}

-- One round of the loop in `processRouterSubscribe`, which leaves an old subscription as it is.
unfoldable pub router_round : World → ℕ → Bytes × ℕ → Broker → Broker × ℕ
router_round w c (t, qos) b = elim (parse_share t) [
  | none ↦ (b, qos_failure)
  | some g ↦ subscribe_new (keep_router_sub c t g.0) c qos g b
]

-- The loop, with the return codes so far.
unfoldable pub rounds :
    (Bytes × ℕ → Broker → Broker × ℕ) → List (Bytes × ℕ) → Broker × List ℕ → Broker × List ℕ
rounds round [] o = o
rounds round (x ∷ xs) (b, codes) =
    let (b', code) = round x b in rounds round xs (b', codes ++ code ∷ [])

abbrev pub suback_of : SubscribePacket → List ℕ → ControlPacket
suback_of packet codes =
    ControlPacket.suback (record { message_id = packet.message_id; return_codes = codes })

-- The loop over `c.rmsgs`: an error is only logged.
unfoldable pub send_retained : World → ℕ → List PublishPacket → Broker → Broker
send_retained w c [] b = b
send_retained w c (m ∷ ms) b = send_retained w c ms (write_to w (ControlPacket.publish m) c b).0

abbrev pub rmsgs_in : Option Peer → List PublishPacket
rmsgs_in none = []
rmsgs_in (some p) = p.rmsgs

abbrev pub rmsgs_of : ℕ → Broker → List PublishPacket
rmsgs_of c b = rmsgs_in (at_address c b.peers)

-- The end of `processClientSubscribe`, after its loop over the filters.
abbrev pub reply_client : World → ℕ → SubscribePacket → Broker × List ℕ → Broker
reply_client w c packet (b, codes) =
    let (b', written) = write_to w (suback_of packet codes) c b in
    if written then send_retained w c (rmsgs_of c b') b' else b'

unfoldable pub process_client_subscribe : World → ℕ → SubscribePacket → Broker → Broker
process_client_subscribe w c packet b =
    if is_client_disconnected c b
    then b
    else reply_client w c packet (rounds (client_round w c) (zip packet.topics packet.qoss) (b, []))

unfoldable pub process_router_subscribe : World → ℕ → SubscribePacket → Broker → Broker
process_router_subscribe w c packet b =
    if is_client_disconnected c b
    then b
    else (let (b', codes) = rounds (router_round w c) (zip packet.topics packet.qoss) (b, []) in
        (write_to w (suback_of packet codes) c b').0)

-- `ProcessSubscribe`; a packet of a CLUSTER is dropped.
unfoldable pub process_subscribe : World → ℕ → SubscribePacket → Broker → Broker
process_subscribe w c packet b = elim (at_address c b.peers) [
  | none ↦ b
  | some p ↦ elim p.typ [
    | ClientType.end_user ↦ process_client_subscribe w c packet b
    | ClientType.router ↦ process_router_subscribe w c packet b
    | ClientType.remote ↦ process_router_subscribe w c packet b
    | ClientType.cluster ↦ b
  ]
]
