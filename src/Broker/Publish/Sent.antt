-- ===== src/Broker/Publish/Sent.antt =====
-- What a PUBLISH makes the broker write to a client: broker/publish.go and broker/comm.go together.
use thoth.Base.{
  ℕ, zero, suc, ◌≡◌, refl, sym, ap, ◌∙◌, arith, Bool, true, false, Option, none, some, List, [],
  ◌∷◌, ◌++◌, append-nil, append_assoc, Bytes, if◌then◌else◌,
}
use thoth.Packets.{PublishPacket, ControlPacket}
use thoth.Heap.{at_address, at_address-modify_view}
use thoth.Topics.Snode.Entries.{entries}
use thoth.Topics.Snode.Match.{hits}
use thoth.Topics.Snode.Shape.{IsSnode}
use thoth.Topics.MemTopics.{valid_qos, retain}
use thoth.Topics.MemTopics.Subscriptions.{HasPath}
use thoth.Client.{Client, is_disconnected, write_packet}
use thoth.Client.Outbound as Outbound
use thoth.Broker.{Peer, Broker, World, with_peer}
use thoth.Broker.Publish.{retain_if_asked, process_publish_message}
use thoth.Broker.Publish.Delivery.{receivers, count_of, times, deliver_each-peer}
use thoth.Broker.Publish.Receipt.{found_by, process_publish_message-eq}

abbrev pub replicate {ℓ} : {A : Type ℓ} → ℕ → A → List A
replicate zero x = []
replicate (suc n) x = x ∷ replicate n x

-- Packets can be written to the client.
abbrev pub IsOnline : Client → Type 0
IsOnline s = (is_disconnected s.status ≡ false) × (s.conn ≡ true)

publish-sent :
    (writes : ControlPacket → Bool) (now : ℕ) (packet : PublishPacket) (s : Client)
    → packet.qos ≡ 0
    → writes (ControlPacket.publish packet) ≡ true
    → IsOnline s
    → Outbound.publish writes now packet s
      ≡ record s { sent = s.sent ++ ControlPacket.publish packet ∷ [] }
unfolding Outbound.publish write_packet
publish-sent writes now packet s q h (d, o) = ground arith

times-sent :
    (writes : ControlPacket → Bool) (now : ℕ) (packet : PublishPacket) (n : ℕ) (s : Client)
    → packet.qos ≡ 0
    → writes (ControlPacket.publish packet) ≡ true
    → IsOnline s
    → (times n (Outbound.publish writes now packet) s).sent
      ≡ s.sent ++ replicate n (ControlPacket.publish packet)
times-sent writes now packet zero s q h o = sym (append-nil s.sent)
times-sent writes now packet (suc n) s q h o =
    ap (λ t. (times n (Outbound.publish writes now packet) t).sent)
      (publish-sent writes now packet s q h o)
    ∙ times-sent writes now packet n
        (record s { sent = s.sent ++ ControlPacket.publish packet ∷ [] }) q h o
    ∙ append_assoc s.sent (ControlPacket.publish packet ∷ [])
        (replicate n (ControlPacket.publish packet))

-- The handshakes of the client at an address.
abbrev pub state_of : Option Peer → Option Client
state_of none = none
state_of (some p) = some p.state

pub peer_of :
    (o : Option Peer) (s : Client) → state_of o ≡ some s → (p : Peer) × (o ≡ some p) × (p.state ≡ s)
peer_of none s h = cc
peer_of (some p) s h = (p, refl, some_state p s h)
  where
    some_state : (p : Peer) (s : Client) → some p.state ≡ some s → p.state ≡ s
    some_state p s h = cc

retain-peers : (packet : PublishPacket) (b : Broker) → (retain_if_asked packet b).peers ≡ b.peers
retain-peers packet b = if_peers packet.retain
  where
    if_peers :
        (asked : Bool)
        → (if asked then record b { topics = (retain packet b.topics).0 } else b).peers ≡ b.peers
    if_peers true = refl
    if_peers false = refl

state-delivered :
    (w : World) (c d : ℕ) (packet : PublishPacket) (b : Broker) (p : Peer) (path : List Bytes)
    (s : Client)
    → at_address c b.peers ≡ some p
    → HasPath packet.topic_name path
    → valid_qos packet.qos ≡ true
    → IsSnode b.topics.sroot
    → state_of (at_address d b.peers) ≡ some s
    → state_of (at_address d (process_publish_message w c packet b).peers)
      ≡ some (
          times
            (count_of d (receivers w p.typ b (hits path (entries b.topics.sroot))))
            (Outbound.publish (w.writes d) w.now packet)
            s)
state-delivered w c d packet b p path s h hp v shaped e =
    let vs = hits path (entries b.topics.sroot) in
    let b' =
      with_peer c (λ r. record r { found = found_by packet.qos vs }) (retain_if_asked packet b) in
    let ss = receivers w p.typ b vs in
    let same : state_of (at_address d b'.peers) ≡ some s =
      at_address-modify_view state_of c d (λ r. record r { found = found_by packet.qos vs })
        (retain_if_asked packet b).peers (λ r. refl)
      ∙ ap (λ h. state_of (at_address d h)) (retain-peers packet b)
      ∙ e in
    let (r, er, es) = peer_of (at_address d b'.peers) s same in
    ap (λ x. state_of (at_address d x.peers))
      (process_publish_message-eq w c packet b p path h hp v shaped)
    ∙ ap state_of (deliver_each-peer w packet d ss b' r er)
    ∙ ap (λ x. some (times (count_of d ss) (Outbound.publish (w.writes d) w.now packet) x)) es

abbrev pub sent_of : Option Client → List ControlPacket
sent_of none = []
sent_of (some s) = s.sent

-- A PUBLISH of QoS 0 by a known client, on a topic without an error and in a well-formed tree, is
-- written to a client that is online and takes it once for each subscription of that client to
-- which it is delivered, behind all that was written before.
pub process_publish_message-sent :
    (w : World) (c d : ℕ) (packet : PublishPacket) (b : Broker) (p : Peer) (path : List Bytes)
    (s : Client)
    → at_address c b.peers ≡ some p
    → HasPath packet.topic_name path
    → packet.qos ≡ 0
    → IsSnode b.topics.sroot
    → state_of (at_address d b.peers) ≡ some s
    → IsOnline s
    → w.writes d (ControlPacket.publish packet) ≡ true
    → sent_of (state_of (at_address d (process_publish_message w c packet b).peers))
      ≡ s.sent
        ++ replicate
            (count_of d (receivers w p.typ b (hits path (entries b.topics.sroot))))
            (ControlPacket.publish packet)
process_publish_message-sent w c d packet b p path s h hp q shaped e o k =
    ap sent_of (state-delivered w c d packet b p path s h hp (ground arith) shaped e)
    ∙ times-sent (w.writes d) w.now packet
        (count_of d (receivers w p.typ b (hits path (entries b.topics.sroot)))) s q k o

times_same : (n : ℕ) (f : Client → Client) (s : Client) → f s ≡ s → times n f s ≡ s
times_same zero f s h = refl
times_same (suc n) f s h = ap (times n f) h ∙ times_same n f s h

publish-exactly_once :
    (writes : ControlPacket → Bool) (now : ℕ) (packet : PublishPacket) (s : Client)
    → packet.qos ≡ 2
    → Outbound.publish writes now packet s ≡ s
unfolding Outbound.publish
publish-exactly_once writes now packet s q = ground arith

-- A PUBLISH of QoS 2 by a known client, on a topic without an error and in a well-formed tree, changes
-- the handshakes of no client: nothing is written to any subscriber and nothing is kept for it.
pub process_publish_message-lost :
    (w : World) (c d : ℕ) (packet : PublishPacket) (b : Broker) (p : Peer) (path : List Bytes)
    (s : Client)
    → at_address c b.peers ≡ some p
    → HasPath packet.topic_name path
    → packet.qos ≡ 2
    → IsSnode b.topics.sroot
    → state_of (at_address d b.peers) ≡ some s
    → state_of (at_address d (process_publish_message w c packet b).peers) ≡ some s
process_publish_message-lost w c d packet b p path s h hp q shaped e =
    state-delivered w c d packet b p path s h hp (ground arith) shaped e
    ∙ ap some (
        times_same (count_of d (receivers w p.typ b (hits path (entries b.topics.sroot))))
          (Outbound.publish (w.writes d) w.now packet) s
          (publish-exactly_once (w.writes d) w.now packet s q))
