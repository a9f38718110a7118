-- ===== src/Broker/Publish/Shared.antt =====
-- The shared subscriptions that `ProcessPublishMessage` of broker/publish.go delivers to, whatever their
-- groups.
use thoth.Base.{ℕ, suc, ◌≡◌, ◌<◌, refl, ap, arith, true, some, List, [], ◌∷◌, ◌++◌, Bytes, length}
use thoth.Packets.{PublishPacket}
use thoth.Heap.{at_address, at_address-lt}
use thoth.Topics.MemTopics.{valid_qos}
use thoth.Topics.MemTopics.Subscriptions.{HasPath}
use thoth.Topics.Snode.Shape.{IsSnode}
use thoth.Topics.Snode.Entries.{entries}
use thoth.Topics.Snode.Match.{hits}
use thoth.Broker.{Peer, Subscription, Broker, World, with_peer}
use thoth.Broker.Publish.{retain_if_asked, process_publish_message}
use thoth.Broker.Publish.Delivery.{selected, unshared, shared, deliver_each, to_list, chosen}
use thoth.Broker.Publish.Receipt.{found_by, process_publish_message-eq}

-- `rand.Intn(n)` is below n.
abbrev pub IsIntn : World → Type 0
IsIntn w = (n : ℕ) → 0 < n → w.intn n < n

-- The second list has one member of the first, or none where the first is empty.
abbrev pub IsOneOf : List Subscription → List Subscription → Type 0
IsOneOf [] cs = cs ≡ []
IsOneOf (t ∷ q) cs = (i : ℕ) × (s : Subscription) × (at_address i (t ∷ q) ≡ some s) × (cs ≡ s ∷ [])

chosen-IsOneOf : (w : World) (q : List Subscription) → IsIntn w → IsOneOf q (chosen w q)
chosen-IsOneOf w [] h = refl
chosen-IsOneOf w (t ∷ q) h =
    let (s, e) =
      at_address-lt (w.intn (suc (length q))) (t ∷ q) (h (suc (length q)) (omega arith)) in
    (w.intn (suc (length q)), s, e, ap to_list e)

-- What a PUBLISH of a known client is delivered to, on a topic without an error, with a valid QoS and in a
-- well-formed tree, where the random choice is in its range: each unshared subscription that matches and whose
-- client gets the message, and of all shared ones of these together, whatever their groups, exactly one, which
-- is among them, if there is any.
pub process_publish_message-one_shared :
    (w : World) (c : ℕ) (packet : PublishPacket) (b : Broker) (p : Peer) (path : List Bytes)
    → IsIntn w
    → at_address c b.peers ≡ some p
    → HasPath packet.topic_name path
    → valid_qos packet.qos ≡ true
    → IsSnode b.topics.sroot
    → let vs = hits path (entries b.topics.sroot) in
      (cs : List Subscription) × (process_publish_message w c packet b
        ≡ deliver_each w packet (unshared (selected p.typ b vs) ++ cs) (
            with_peer c
              (λ r. record r { found = found_by packet.qos vs })
              (retain_if_asked packet b)))
      × IsOneOf (shared (selected p.typ b vs)) cs
process_publish_message-one_shared w c packet b p path h e hp v s =
    let q = shared (selected p.typ b (hits path (entries b.topics.sroot))) in
    (chosen w q, process_publish_message-eq w c packet b p path e hp v s, chosen-IsOneOf w q h)
