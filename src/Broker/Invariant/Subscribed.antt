-- ===== src/Broker/Invariant/Subscribed.antt =====
-- The validity of the pointers and SUBSCRIBE: broker/subscribe.go.
use thoth.Base.{
  refl, ℕ, ◌<◌, arith, length-append, inl, inr, Bool, true, false, List, [], ◌∷◌, ◌++◌, Bytes,
  Bytes-discrete, length, if◌then◌else◌, Option-cases,
}
use thoth.Packets.{PublishPacket, SubscribePacket, ControlPacket}
use thoth.Assoc.{insert, remove}
use thoth.All.{Values-insert}
use thoth.Heap.{at_address, length-modify, at_address-some}
use thoth.SubMap.{add_sub_map}
use thoth.Sessions.Session as Session
use thoth.Topics.Value.{Value}
use thoth.Topics.MemTopics.{qos_failure, subscribe, retained}
use thoth.Broker.{
  ClientType, Peer, Broker, World, with_peer, write_to, is_client_disconnected, is_none,
}
use thoth.Broker.Subscribe.{
  zip, parse_share, new_subscription, drop_subscription, find_sub, replace_old, with_session,
  keep_client_sub, keep_router_sub, subscribe_new, client_round, router_round, rounds, suback_of,
  send_retained, rmsgs_of, process_client_subscribe, process_router_subscribe, process_subscribe,
}
use thoth.Broker.Subscribe.Views.{drop_subscription-peers, with_session-peers}
use thoth.Broker.Kept.{IsOwn, IsKept, if-kept, IsServing}
use thoth.Broker.Invariant.Published.{write_to-kept}
use thoth.Broker.Invariant.Links.{drop_subscription-kept, forget-kept, with_session-kept}

module _ (P : Broker → Type 0) (kept : IsKept P) where
  pub replace_old-IsServing :
      (c : ℕ) (t : Bytes) (b : Broker) → IsServing P c b → IsServing P c (replace_old c t b)
  unfolding replace_old
  replace_old-IsServing c t b (v, l) = elim (Option-cases (find_sub c t b)) [
    | inl e ↦ rw (e, replace_old) (v, l)
    | inr (a, e) ↦
        rw (e, replace_old)
          (
            forget-kept P kept c t (drop_subscription a b) (drop_subscription-kept P kept a b v),
            rw
                (
                  length-modify c (λ p. record p { sub_map = remove Bytes-discrete t p.sub_map })
                      (drop_subscription a b).peers,
                  drop_subscription-peers a b,
                )
                l,
          )
  ]

  with_peer-IsServing :
      (c d : ℕ) (f : Peer → Peer) (b : Broker)
      → ((p : Peer) → IsOwn (length b.subscriptions) p (f p))
      → IsServing P c b
      → IsServing P c (with_peer d f b)
  with_peer-IsServing c d f b keeps (v, l) =
      (kept.owns d f b keeps v, rw (length-modify d f b.peers) l)

  with_session-IsServing :
      (c : ℕ) (f : Session.Session → Session.Session) (b : Broker)
      → IsServing P c b
      → IsServing P c (with_session c f b)
  with_session-IsServing c f b (v, l) =
      (with_session-kept P kept c f b v, rw (with_session-peers c f b) l)

  keep_client_sub-IsServing :
      (c : ℕ) (t : Bytes) (qos : ℕ) (topic : Bytes) (a : ℕ) (b : Broker)
      → a < length b.subscriptions
      → IsServing P c b
      → IsServing P c (keep_client_sub c t qos topic a b)
  keep_client_sub-IsServing c t qos topic a b k v =
      let b' = with_peer c (λ p. record p { sub_map = insert Bytes-discrete t a p.sub_map }) b in
      let b'' = with_session c (λ s. (Session.add_topic t qos s).0) b' in
      with_peer-IsServing c c (λ p. record p { rmsgs = (retained topic b''.topics p.rmsgs).0 }) b''
        (λ p. (refl, refl, refl, refl, λ h. h))
        (with_session-IsServing c (λ s. (Session.add_topic t qos s).0) b'
          (with_peer-IsServing c c (λ p. record p { sub_map = insert Bytes-discrete t a p.sub_map })
            b
            (λ p. (
              refl,
              refl,
              refl,
              refl,
              Values-insert Bytes-discrete (λ a. a < length b.subscriptions) t a p.sub_map k,
            ))
            v))

  keep_router_sub-IsServing :
      (c : ℕ) (t topic : Bytes) (a : ℕ) (b : Broker)
      → a < length b.subscriptions
      → IsServing P c b
      → IsServing P c (keep_router_sub c t topic a b)
  keep_router_sub-IsServing c t topic a b k =
      with_peer-IsServing c c
        (λ p. record p {
          sub_map = insert Bytes-discrete t a p.sub_map;
          route_sub_map = add_sub_map topic p.route_sub_map;
        })
        b
        (λ p. (
          refl,
          refl,
          refl,
          refl,
          Values-insert Bytes-discrete (λ a. a < length b.subscriptions) t a p.sub_map k,
        ))

  abbrev broker_of : Broker × ℕ → Broker
  broker_of o = o.0

  subscribe_new-IsServing :
      (keep : ℕ → Broker → Broker) (c qos : ℕ) (g : Bytes × Bool × Bytes) (b : Broker)
      → ((a : ℕ) (b : Broker)
          → a < length b.subscriptions
          → IsServing P c b
          → IsServing P c (keep a b))
      → IsServing P c b
      → IsServing P c (subscribe_new keep c qos g b).0
  subscribe_new-IsServing keep c qos g b keeps (v, l) =
      let a = length b.subscriptions in
      let s = new_subscription c qos g in
      let b' = record b {
        subscriptions = b.subscriptions ++ s ∷ [];
        topics = (subscribe g.0 qos (Value.pointer a) b.topics).0;
      } in
      let v' : IsServing P c b' = (kept.subscribes s g.0 qos b l v, l) in
      of_outcome (is_none (subscribe g.0 qos (Value.pointer a) b.topics).2) (keep a b') b'
        (subscribe g.0 qos (Value.pointer a) b.topics).1
        (keeps a b' (omega (arith, length-append b.subscriptions (s ∷ []))) v') v'
    where
      of_outcome :
          (x : Bool) (u v : Broker) (rqos : ℕ)
          → IsServing P c u
          → IsServing P c v
          → IsServing P c (broker_of (if x then (u, rqos) else (v, qos_failure)))
      of_outcome true u v rqos h k = h
      of_outcome false u v rqos h k = k

  pub client_round-IsServing :
      (w : World) (c : ℕ) (x : Bytes × ℕ) (b : Broker)
      → IsServing P c b
      → IsServing P c (client_round w c x b).0
  unfolding client_round
  client_round-IsServing w c (t, qos) b v = elim (Option-cases (parse_share t)) [
    | inl e ↦ rw (e, client_round) v
    | inr (g, e) ↦
        rw (e, client_round)
          (subscribe_new-IsServing (keep_client_sub c t qos g.0) c qos g (replace_old c t b)
            (keep_client_sub-IsServing c t qos g.0) (replace_old-IsServing c t b v))
  ]

  router_round-IsServing :
      (w : World) (c : ℕ) (x : Bytes × ℕ) (b : Broker)
      → IsServing P c b
      → IsServing P c (router_round w c x b).0
  unfolding router_round
  router_round-IsServing w c (t, qos) b v = elim (Option-cases (parse_share t)) [
    | inl e ↦ rw (e, router_round) v
    | inr (g, e) ↦
        rw (e, router_round)
          (subscribe_new-IsServing (keep_router_sub c t g.0) c qos g b
            (keep_router_sub-IsServing c t g.0) v)
  ]

  rounds-IsServing :
      (c : ℕ) (round : Bytes × ℕ → Broker → Broker × ℕ)
      → ((x : Bytes × ℕ) (b : Broker) → IsServing P c b → IsServing P c (round x b).0)
      → (xs : List (Bytes × ℕ)) (b : Broker) (codes : List ℕ) → IsServing P c b
      → IsServing P c (rounds round xs (b, codes)).0
  unfolding rounds
  rounds-IsServing c round keeps [] b codes v = v
  rounds-IsServing c round keeps (x ∷ xs) b codes v =
      rounds-IsServing c round keeps xs (round x b).0 (codes ++ (round x b).1 ∷ []) (keeps x b v)

  send_retained-kept :
      (w : World) (c : ℕ) (ms : List PublishPacket) (b : Broker) → P b → P (send_retained w c ms b)
  unfolding send_retained
  send_retained-kept w c [] b v = v
  send_retained-kept w c (m ∷ ms) b v =
      send_retained-kept w c ms (write_to w (ControlPacket.publish m) c b).0
        (write_to-kept P kept w (ControlPacket.publish m) c b v)

  process_client_subscribe-kept :
      (w : World) (c : ℕ) (packet : SubscribePacket) (b : Broker)
      → IsServing P c b
      → P (process_client_subscribe w c packet b)
  unfolding process_client_subscribe
  process_client_subscribe-kept w c packet b v =
      let (b', codes) = rounds (client_round w c) (zip packet.topics packet.qoss) (b, []) in
      let v' =
        write_to-kept P kept w (suback_of packet codes) c b'
          (rounds-IsServing c (client_round w c) (client_round-IsServing w c)
            (zip packet.topics packet.qoss) b [] v).0 in
      let (b'', written) = write_to w (suback_of packet codes) c b' in
      if-kept P (is_client_disconnected c b) b _ v.0
        (if-kept P written _ b'' (send_retained-kept w c (rmsgs_of c b'') b'' v') v')

  process_router_subscribe-kept :
      (w : World) (c : ℕ) (packet : SubscribePacket) (b : Broker)
      → IsServing P c b
      → P (process_router_subscribe w c packet b)
  unfolding process_router_subscribe
  process_router_subscribe-kept w c packet b v =
      let (b', codes) = rounds (router_round w c) (zip packet.topics packet.qoss) (b, []) in
      if-kept P (is_client_disconnected c b) b _ v.0 (
        write_to-kept P kept w (suback_of packet codes) c b'
          (rounds-IsServing c (router_round w c) (router_round-IsServing w c)
            (zip packet.topics packet.qoss) b [] v).0)

  pub process_subscribe-kept :
      (w : World) (c : ℕ) (packet : SubscribePacket) (b : Broker)
      → P b
      → P (process_subscribe w c packet b)
  unfolding process_subscribe
  process_subscribe-kept w c packet b v = elim (Option-cases (at_address c b.peers)) [
    | inl e ↦ rw (e, process_subscribe) v
    | inr (p, e) ↦ rw (e, process_subscribe) (of_type p.typ (at_address-some c b.peers p e))
  ]
    where
      of_type :
          (typ : ClientType)
          → c < length b.peers
          → P (elim typ as (λ x. Broker) [
            | ClientType.end_user ↦ process_client_subscribe w c packet b
            | ClientType.router ↦ process_router_subscribe w c packet b
            | ClientType.remote ↦ process_router_subscribe w c packet b
            | ClientType.cluster ↦ b
          ])
      of_type ClientType.end_user l = process_client_subscribe-kept w c packet b (v, l)
      of_type ClientType.router l = process_router_subscribe-kept w c packet b (v, l)
      of_type ClientType.remote l = process_router_subscribe-kept w c packet b (v, l)
      of_type ClientType.cluster l = v
