-- ===== src/Broker/Unsubscribe.antt =====
-- UNSUBSCRIBE in broker/unsubscribe.go, and `BroadcastSubOrUnsubMessage` of broker/broker.go.
pub mod Ended
use thoth.Base.{
  ℕ, suc, Bool, true, false, Option, none, some, List, [], ◌∷◌, Bytes, ltb, if◌then◌else◌,
}
use thoth.Packets.{UnsubscribePacket, ControlPacket}
use thoth.Heap.{at_address}
use thoth.SubMap.{del_sub_map}
use thoth.Sessions.Session as Session
use thoth.Broker.{ClientType, Peer, Broker, World, with_peer, write_to, is_client_disconnected}
use thoth.Broker.Subscribe.{find_sub, drop_subscription, forget, with_session}

-- One round of the loop in `processClientUnsubscribe`.
unfoldable pub client_unsubscribe : ℕ → Bytes → Broker → Broker
client_unsubscribe c t b = elim (find_sub c t b) [
  | none ↦ b
  | some a ↦ forget c t (with_session c (λ s. (Session.remove_topic t s).0) (drop_subscription a b))
]

abbrev pub counted_down : ℕ → Bytes → Broker → Option Peer → Broker × ℕ
counted_down c t b none = (b, 0)
counted_down c t b (some p) =
    let (m, n) = del_sub_map t p.route_sub_map in
    (with_peer c (λ q. record q { route_sub_map = m }) b, n)

-- `utils.DelSubMap(c.routeSubMap, topic)`
unfoldable pub count_down : ℕ → Bytes → Broker → Broker × ℕ
count_down c t b = counted_down c t b (at_address c b.peers)

-- One round of the loop in `processRouterUnsubscribe`.
unfoldable pub router_unsubscribe : ℕ → Bytes → Broker → Broker
router_unsubscribe c t b = elim (find_sub c t b) [
  | none ↦ b
  | some a ↦
      let (b', retain_num) = count_down c t b in
      if ltb 0 retain_num then b' else forget c t (drop_subscription a b')
]

unfoldable pub unsubscribe_all : (Bytes → Broker → Broker) → List Bytes → Broker → Broker
unsubscribe_all round [] b = b
unsubscribe_all round (t ∷ ts) b = unsubscribe_all round ts (round t b)

-- The `Range` over `b.routes`: an error is dropped.
unfoldable pub broadcast : World → ControlPacket → List (Bytes × ℕ) → Broker → Broker
broadcast w packet [] b = b
broadcast w packet ((k, r) ∷ routes) b = broadcast w packet routes (write_to w packet r b).0

abbrev pub broadcast_sub_or_unsub_message : World → ControlPacket → Broker → Broker
broadcast_sub_or_unsub_message w packet b = broadcast w packet b.routes b

unfoldable pub process_client_unsubscribe : World → ℕ → UnsubscribePacket → Broker → Broker
process_client_unsubscribe w c packet b =
    if is_client_disconnected c b
    then b
    else (let b' = unsubscribe_all (client_unsubscribe c) packet.topics b in
        let (b'', written) = write_to w (ControlPacket.unsuback packet.message_id) c b' in
        if written
        then broadcast_sub_or_unsub_message w (ControlPacket.unsubscribe packet) b''
        else b'')

unfoldable pub process_router_unsubscribe : World → ℕ → UnsubscribePacket → Broker → Broker
process_router_unsubscribe w c packet b =
    if is_client_disconnected c b
    then b
    else (write_to w (ControlPacket.unsuback packet.message_id) c
        (unsubscribe_all (router_unsubscribe c) packet.topics b)).0

-- `ProcessUnsubscribe`; a packet of a REMOTE or a CLUSTER is dropped.
unfoldable pub process_unsubscribe : World → ℕ → UnsubscribePacket → Broker → Broker
process_unsubscribe w c packet b = elim (at_address c b.peers) [
  | none ↦ b
  | some p ↦ elim p.typ [
    | ClientType.end_user ↦ process_client_unsubscribe w c packet b
    | ClientType.router ↦ process_router_unsubscribe w c packet b
    | ClientType.remote ↦ b
    | ClientType.cluster ↦ b
  ]
]
