-- ===== src/Broker/Subscribe/Replies.antt =====
-- What a SUBSCRIBE of a client makes the broker write to it: `processClientSubscribe` of
-- broker/subscribe.go.
use thoth.Base.{
  ℕ, ◌≡◌, refl, sym, ap, ◌∙◌, inl, inr, arith, Bool, true, false, Option, none, some, List, [], ◌∷◌,
  ◌++◌, map, append-nil, append_assoc, Bytes, if◌then◌else◌, Option-cases,
}
use thoth.Packets.{PublishPacket, SubscribePacket, ControlPacket}
use thoth.Heap.{at_address, at_address-modify_self, at_address-modify_view}
use thoth.Client.{Client, is_disconnected, write_packet}
use thoth.Broker.{
  Peer, Broker, World, with_peer, write_to, is_client_disconnected, is_gone, is_none,
}
use thoth.Broker.Publish.Sent.{IsOnline, state_of, sent_of, peer_of}
use thoth.Broker.Subscribe.{
  zip, client_round, rounds, rmsgs_in, suback_of, send_retained, reply_client, rmsgs_of,
  process_client_subscribe,
}
use thoth.Broker.Subscribe.Codes.{expected, rounds-expected}
use thoth.Topics.Rnode.Lookup.{IsRnode}
use thoth.Broker.Subscribe.Added.{is_here, all_added, AreAdded, all_added-AreAdded}
use thoth.Broker.Subscribe.Grants.{AreCodes, map-AreCodes}
use thoth.Broker.Subscribe.Collected.{rounds-Collects}
use thoth.Broker.Subscribe.Views.{view-client_round, view-rounds}

abbrev pub state_at : ℕ → Broker → Option Client
state_at d b = state_of (at_address d b.peers)

write_packet-online :
    (writes : ControlPacket → Bool) (packet : ControlPacket) (s : Client)
    → IsOnline s
    → writes packet ≡ true
    → write_packet writes packet s ≡ (record s { sent = s.sent ++ packet ∷ [] }, none)
unfolding write_packet
write_packet-online writes packet s (d, o) k = ground arith

write_to-eq :
    (w : World) (packet : ControlPacket) (c : ℕ) (b : Broker) (p : Peer)
    → at_address c b.peers ≡ some p
    → write_to w packet c b ≡ (
      with_peer c (λ q. record q { state = (write_packet (w.writes c) packet p.state).0 }) b,
      is_none (write_packet (w.writes c) packet p.state).1,
    )
unfolding write_to
write_to-eq w packet c b p e = rw (e, write_to) refl

-- A write to an online client that succeeds.
state-write_to :
    (w : World) (packet : ControlPacket) (c : ℕ) (b : Broker) (s : Client)
    → state_at c b ≡ some s
    → IsOnline s
    → w.writes c packet ≡ true
    → ((write_to w packet c b).1 ≡ true)
      × (state_at c (write_to w packet c b).0 ≡ some (record s { sent = s.sent ++ packet ∷ [] }))
state-write_to w packet c b s h o k =
    let (p, e, es) = peer_of (at_address c b.peers) s h in
    let wrote : write_packet (w.writes c) packet p.state
        ≡ (record s { sent = s.sent ++ packet ∷ [] }, none) =
      ap (write_packet (w.writes c) packet) es ∙ write_packet-online (w.writes c) packet s o k in
    (
      ap (λ x. x.1) (write_to-eq w packet c b p e) ∙ ap (λ x. is_none x.1) wrote,
      ap (λ x. state_at c x.0) (write_to-eq w packet c b p e)
          ∙ ap state_of (
              at_address-modify_self c
                (λ q. record q { state = (write_packet (w.writes c) packet p.state).0 }) b.peers p
                e)
          ∙ ap (λ x. some x.0) wrote,
    )

abbrev pub messages : List PublishPacket → List ControlPacket
messages ms = map (λ m. ControlPacket.publish m) ms

send_retained-sent :
    (w : World) (c : ℕ) (ms : List PublishPacket) (b : Broker) (s : Client)
    → state_at c b ≡ some s
    → IsOnline s
    → ((p : ControlPacket) → w.writes c p ≡ true)
    → state_at c (send_retained w c ms b) ≡ some (record s { sent = s.sent ++ messages ms })
unfolding send_retained
send_retained-sent w c [] b s h o k =
    h ∙ ap (λ l. some (record s { sent = l })) (sym (append-nil s.sent))
send_retained-sent w c (m ∷ ms) b s h o k =
    send_retained-sent w c ms (write_to w (ControlPacket.publish m) c b).0
      (record s { sent = s.sent ++ ControlPacket.publish m ∷ [] })
      (state-write_to w (ControlPacket.publish m) c b s h o (k (ControlPacket.publish m))).1 o k
    ∙ ap (λ l. some (record s { sent = l }))
        (append_assoc s.sent (ControlPacket.publish m ∷ []) (messages ms))

connected-at :
    (c : ℕ) (b : Broker) (s : Client)
    → state_at c b ≡ some s
    → IsOnline s
    → is_client_disconnected c b ≡ false
connected-at c b s h o =
    let (p, e, es) = peer_of (at_address c b.peers) s h in
    ap is_gone e ∙ ap (λ x. is_disconnected x.status) es ∙ o.0

rmsgs-write_to :
    (w : World) (packet : ControlPacket) (c : ℕ) (b : Broker)
    → rmsgs_of c (write_to w packet c b).0 ≡ rmsgs_of c b
unfolding write_to
rmsgs-write_to w packet c b = elim (Option-cases (at_address c b.peers)) [
  | inl e ↦ rw (e, write_to) (ap rmsgs_in e)
  | inr (p, e) ↦
      ap (λ x. rmsgs_of c x.0) (write_to-eq w packet c b p e)
      ∙ at_address-modify_view rmsgs_in c c
          (λ q. record q { state = (write_packet (w.writes c) packet p.state).0 }) b.peers
          (λ q. refl)
]

state-reply_client :
    (w : World) (c : ℕ) (packet : SubscribePacket) (codes : List ℕ) (b : Broker) (s : Client)
    → state_at c b ≡ some s
    → IsOnline s
    → ((p : ControlPacket) → w.writes c p ≡ true)
    → state_at c (reply_client w c packet (b, codes))
      ≡ some (record s { sent = s.sent ++ suback_of packet codes ∷ messages (rmsgs_of c b) })
state-reply_client w c packet codes b s h o k =
    let (written, after) =
      state-write_to w (suback_of packet codes) c b s h o (k (suback_of packet codes)) in
    let b' = (write_to w (suback_of packet codes) c b).0 in
    ap (λ x. state_at c (if x then send_retained w c (rmsgs_of c b') b' else b')) written
    ∙ ap (λ ms. state_at c (send_retained w c ms b'))
        (rmsgs-write_to w (suback_of packet codes) c b)
    ∙ send_retained-sent w c (rmsgs_of c b) b'
        (record s { sent = s.sent ++ suback_of packet codes ∷ [] }) after o k
    ∙ ap (λ l. some (record s { sent = l }))
        (append_assoc s.sent (suback_of packet codes ∷ []) (messages (rmsgs_of c b)))

pub state-client_round :
    (d : ℕ) (w : World) (c : ℕ) (x : Bytes × ℕ) (b : Broker)
    → state_at d (client_round w c x b).0 ≡ state_at d b
state-client_round = view-client_round state_of (λ m p. refl) (λ ms p. refl)

state-rounds :
    (w : World) (c : ℕ) (xs : List (Bytes × ℕ)) (b : Broker)
    → state_at c (rounds (client_round w c) xs (b, [])).0 ≡ state_at c b
state-rounds w c xs b =
    view-rounds state_of (λ m p. refl) (λ ms p. refl) c (client_round w c)
      (state-client_round c w c) xs b []

here-at :
    (c : ℕ) (b : Broker) (s : Client)
    → state_at c b ≡ some s
    → is_here (at_address c b.peers) ≡ true
here-at c b s h = let (p, e, es) = peer_of (at_address c b.peers) s h in ap is_here e

process_client_subscribe-lem :
    (w : World) (c : ℕ) (packet : SubscribePacket) (b : Broker) (s : Client)
    → state_at c b ≡ some s
    → IsOnline s
    → ((p : ControlPacket) → w.writes c p ≡ true)
    → IsRnode b.topics.rroot
    → sent_of (state_at c (process_client_subscribe w c packet b))
      ≡ s.sent
        ++ suback_of packet (map (expected w) (zip packet.topics packet.qoss))
          ∷ messages (rmsgs_of c b ++ all_added b.topics.rroot (zip packet.topics packet.qoss))
unfolding process_client_subscribe
process_client_subscribe-lem w c packet b s h o k v =
    let xs = zip packet.topics packet.qoss in
    let done = rounds (client_round w c) xs (b, []) in
    ap (λ x. sent_of (state_at c (if x then b else reply_client w c packet done)))
      (connected-at c b s h o)
    ∙ ap sent_of (state-reply_client w c packet done.1 done.0 s (state-rounds w c xs b ∙ h) o k)
    ∙ ap (λ codes. s.sent ++ suback_of packet codes ∷ messages (rmsgs_of c done.0))
        (rounds-expected w c xs b).0
    ∙ ap (λ ms. s.sent ++ suback_of packet (map (expected w) xs) ∷ messages ms)
        (rounds-Collects w c xs b [] (here-at c b s h) v)

-- Where the tree of retained messages is well-formed, an online client sends a SUBSCRIBE and every write to it
-- succeeds, it is written the SUBACK, with a code for each filter, then the retained messages that
-- it has collected before, and then, filter by filter, the retained messages of the tree that the topic of
-- the filter matches, where its QoS is at most 2 and the topic splits into levels. The code of such a filter
-- is that QoS, of any other 0x80; a filter with "$share/" but without a well-formed group has no topic.
pub process_client_subscribe-sent :
    (w : World) (c : ℕ) (packet : SubscribePacket) (b : Broker) (s : Client)
    → state_at c b ≡ some s
    → IsOnline s
    → ((p : ControlPacket) → w.writes c p ≡ true)
    → IsRnode b.topics.rroot
    → (codes : List ℕ) × (ms : List PublishPacket) × AreCodes (zip packet.topics packet.qoss) codes
      × AreAdded b.topics.rroot (zip packet.topics packet.qoss) ms
      × (sent_of (state_at c (process_client_subscribe w c packet b))
          ≡ s.sent ++ suback_of packet codes ∷ messages (rmsgs_of c b ++ ms))
process_client_subscribe-sent w c packet b s h o k v = (
  map (expected w) (zip packet.topics packet.qoss),
  all_added b.topics.rroot (zip packet.topics packet.qoss),
  map-AreCodes w (zip packet.topics packet.qoss),
  all_added-AreAdded b.topics.rroot (zip packet.topics packet.qoss),
  process_client_subscribe-lem w c packet b s h o k v,
)
