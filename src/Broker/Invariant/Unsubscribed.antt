-- ===== src/Broker/Invariant/Unsubscribed.antt =====
-- The validity of the pointers and UNSUBSCRIBE: broker/unsubscribe.go.
use thoth.Base.{refl, ℕ, inl, inr, Option, none, some, List, [], ◌∷◌, Bytes, ltb, Option-cases}
use thoth.Packets.{UnsubscribePacket, ControlPacket}
use thoth.Heap.{at_address}
use thoth.SubMap.{del_sub_map}
use thoth.Sessions.Session as Session
use thoth.Broker.{ClientType, Peer, Broker, World, write_to, is_client_disconnected}
use thoth.Broker.Subscribe.{drop_subscription, find_sub, with_session}
use thoth.Broker.Unsubscribe.{
  client_unsubscribe, counted_down, count_down, router_unsubscribe, unsubscribe_all, broadcast,
  process_client_unsubscribe, process_router_unsubscribe, process_unsubscribe,
}
use thoth.Broker.Kept.{IsKept, if-kept}
use thoth.Broker.Invariant.Published.{write_to-kept}
use thoth.Broker.Invariant.Links.{drop_subscription-kept, forget-kept, with_session-kept}

module _ (P : Broker → Type 0) (kept : IsKept P) where
  client_unsubscribe-kept : (c : ℕ) (t : Bytes) (b : Broker) → P b → P (client_unsubscribe c t b)
  unfolding client_unsubscribe
  client_unsubscribe-kept c t b v = elim (Option-cases (find_sub c t b)) [
    | inl e ↦ rw (e, client_unsubscribe) v
    | inr (a, e) ↦
        rw (e, client_unsubscribe)
          (forget-kept P kept c t
            (with_session c (λ s. (Session.remove_topic t s).0) (drop_subscription a b))
            (with_session-kept P kept c (λ s. (Session.remove_topic t s).0) (drop_subscription a b)
              (drop_subscription-kept P kept a b v)))
  ]

  count_down-kept : (c : ℕ) (t : Bytes) (b : Broker) → P b → P (count_down c t b).0
  unfolding count_down
  count_down-kept c t b v = counted (at_address c b.peers)
    where
      counted : (o : Option Peer) → P (counted_down c t b o).0
      counted none = v
      counted (some p) =
          kept.owns c (λ q. record q { route_sub_map = (del_sub_map t p.route_sub_map).0 }) b
            (λ q. (refl, refl, refl, refl, λ h. h)) v

  router_unsubscribe-kept : (c : ℕ) (t : Bytes) (b : Broker) → P b → P (router_unsubscribe c t b)
  unfolding router_unsubscribe
  router_unsubscribe-kept c t b v = elim (Option-cases (find_sub c t b)) [
    | inl e ↦ rw (e, router_unsubscribe) v
    | inr (a, e) ↦
        rw (e, router_unsubscribe)
          (let b' = (count_down c t b).0 in
            let v' = count_down-kept c t b v in
            if-kept P (ltb 0 (count_down c t b).1) b' _ v' (
              forget-kept P kept c t (drop_subscription a b')
                (drop_subscription-kept P kept a b' v')))
  ]

  unsubscribe_all-kept :
      (round : Bytes → Broker → Broker)
      → ((t : Bytes) (b : Broker) → P b → P (round t b))
      → (ts : List Bytes) (b : Broker) → P b
      → P (unsubscribe_all round ts b)
  unfolding unsubscribe_all
  unsubscribe_all-kept round keeps [] b v = v
  unsubscribe_all-kept round keeps (t ∷ ts) b v =
      unsubscribe_all-kept round keeps ts (round t b) (keeps t b v)

  broadcast-kept :
      (w : World) (packet : ControlPacket) (rs : List (Bytes × ℕ)) (b : Broker)
      → P b
      → P (broadcast w packet rs b)
  unfolding broadcast
  broadcast-kept w packet [] b v = v
  broadcast-kept w packet ((k, r) ∷ rs) b v =
      broadcast-kept w packet rs (write_to w packet r b).0 (write_to-kept P kept w packet r b v)

  process_client_unsubscribe-kept :
      (w : World) (c : ℕ) (packet : UnsubscribePacket) (b : Broker)
      → P b
      → P (process_client_unsubscribe w c packet b)
  unfolding process_client_unsubscribe
  process_client_unsubscribe-kept w c packet b v =
      let b' = unsubscribe_all (client_unsubscribe c) packet.topics b in
      let (b'', written) = write_to w (ControlPacket.unsuback packet.message_id) c b' in
      let v' = write_to-kept P kept w (ControlPacket.unsuback packet.message_id) c b' (
        unsubscribe_all-kept (client_unsubscribe c) (client_unsubscribe-kept c) packet.topics b
          v) in
      if-kept P (is_client_disconnected c b) b _ v (
        if-kept P written _ b''
          (broadcast-kept w (ControlPacket.unsubscribe packet) b''.routes b'' v') v')

  process_router_unsubscribe-kept :
      (w : World) (c : ℕ) (packet : UnsubscribePacket) (b : Broker)
      → P b
      → P (process_router_unsubscribe w c packet b)
  unfolding process_router_unsubscribe
  process_router_unsubscribe-kept w c packet b v = if-kept P (is_client_disconnected c b) b _ v (
      write_to-kept P kept w (ControlPacket.unsuback packet.message_id) c
        (unsubscribe_all (router_unsubscribe c) packet.topics b)
        (unsubscribe_all-kept (router_unsubscribe c) (router_unsubscribe-kept c) packet.topics b v))

  pub process_unsubscribe-kept :
      (w : World) (c : ℕ) (packet : UnsubscribePacket) (b : Broker)
      → P b
      → P (process_unsubscribe w c packet b)
  unfolding process_unsubscribe
  process_unsubscribe-kept w c packet b v = elim (Option-cases (at_address c b.peers)) [
    | inl e ↦ rw (e, process_unsubscribe) v
    | inr (p, e) ↦ rw (e, process_unsubscribe) (of_type p.typ)
  ]
    where
      of_type :
          (typ : ClientType)
          → P (elim typ as (λ x. Broker) [
            | ClientType.end_user ↦ process_client_unsubscribe w c packet b
            | ClientType.router ↦ process_router_unsubscribe w c packet b
            | ClientType.remote ↦ b
            | ClientType.cluster ↦ b
          ])
      of_type ClientType.end_user = process_client_unsubscribe-kept w c packet b v
      of_type ClientType.router = process_router_unsubscribe-kept w c packet b v
      of_type ClientType.remote = v
      of_type ClientType.cluster = v
