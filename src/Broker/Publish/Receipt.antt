-- ===== src/Broker/Publish/Receipt.antt =====
-- What a PUBLISH brings to the clients: `ProcessPublishMessage` of broker/publish.go over the topics
-- of broker/persistence/topics/memtopics.go.
use thoth.Base.{
  ℕ, ◌≡◌, refl, sym, subst, ap, ◌∙◌, inl, inr, Bool, true, false, none, some, List, [], ◌∷◌, ◌++◌,
  map, Bytes, if◌then◌else◌, Option-cases,
}
use thoth.Packets.{PublishPacket}
use thoth.Heap.{at_address}
use thoth.Topics.Value.{Value}
use thoth.Topics.Snode.{Found}
use thoth.Topics.Snode.Entries.{entries}
use thoth.Topics.Snode.Match.{hits}
use thoth.Topics.Snode.Shape.{IsSnode}
use thoth.Topics.MemTopics.{MemTopics, valid_qos, retain, subscribers}
use thoth.Topics.MemTopics.Retention.{retain-sroot}
use thoth.Topics.MemTopics.Subscriptions.{HasPath, subscribers-eq-hits}
use thoth.Broker.{ClientType, Peer, Broker, World, with_peer}
use thoth.Broker.Publish.{retain_if_asked, publish_found, process_publish_message}
use thoth.Broker.Publish.Delivery.{
  unshared, shared, chosen, is_receiver, selected, receivers, deliver_each, selected-with_peer,
  share_out-fan_out,
}

abbrev pub found_by : ℕ → List Value → Found
found_by qos vs = record { subs = vs; qoss = map (λ _. qos) vs }

abbrev keep_found : ℕ → Found → Broker → Broker
keep_found c out b = with_peer c (λ r. record r { found = out }) b

publish_found-eq :
    (w : World) (c : ℕ) (p : Peer) (packet : PublishPacket) (b : Broker) (out : Found)
    → subscribers packet.topic_name packet.qos b.topics p.found ≡ (out, none)
    → publish_found w c p packet b
      ≡ deliver_each w packet (receivers w p.typ b out.subs) (keep_found c out b)
publish_found-eq w c p packet b out h = rw h (
    share_out-fan_out w p.typ packet out.subs (keep_found c out b)
    ∙ ap (λ ss. deliver_each w packet (unshared ss ++ chosen w (shared ss)) (keep_found c out b))
        (selected-with_peer p.typ c (λ r. record r { found = out }) out.subs b (λ r. refl)))

-- What holds whether the topics were changed or not.
by_retain :
    (P : Broker → Type 0) (asked : Bool) (t : MemTopics) (b : Broker)
    → P (record b { topics = t })
    → P b
    → P (if asked then record b { topics = t } else b)
by_retain P true t b h k = h
by_retain P false t b h k = k

selected-topics :
    (typ : ClientType) (t : MemTopics) (vs : List Value) (b : Broker)
    → selected typ (record b { topics = t }) vs ≡ selected typ b vs
unfolding selected is_receiver
selected-topics typ t [] b = refl
selected-topics typ t (Value.pointer a ∷ vs) b =
    elim (Option-cases (at_address a b.subscriptions)) [
      | inl e ↦ rw (e, selected) (selected-topics typ t vs b)
      | inr (r, e) ↦ rw (e, selected, is_receiver, selected-topics typ t vs b) refl
    ]
selected-topics typ t (v ∷ vs) b = selected-topics typ t vs b

receivers-retain :
    (w : World) (typ : ClientType) (packet : PublishPacket) (vs : List Value) (b : Broker)
    → receivers w typ (retain_if_asked packet b) vs ≡ receivers w typ b vs
receivers-retain w typ packet vs b =
    by_retain (λ x. receivers w typ x vs ≡ receivers w typ b vs) packet.retain
      (retain packet b.topics).0 b
      (ap (λ ss. unshared ss ++ chosen w (shared ss))
        (selected-topics typ (retain packet b.topics).0 vs b))
      refl

subscribers-retain :
    (packet : PublishPacket) (b : Broker) (path : List Bytes) (out : Found)
    → HasPath packet.topic_name path
    → valid_qos packet.qos ≡ true
    → IsSnode b.topics.sroot
    → subscribers packet.topic_name packet.qos (retain_if_asked packet b).topics out
      ≡ (found_by packet.qos (hits path (entries b.topics.sroot)), none)
subscribers-retain packet b path out hp v s =
    by_retain
      (λ x.
        subscribers packet.topic_name packet.qos x.topics out
        ≡ (found_by packet.qos (hits path (entries b.topics.sroot)), none))
      packet.retain (retain packet b.topics).0 b
      (subscribers-eq-hits packet.topic_name path packet.qos (retain packet b.topics).0 out hp v
          (subst IsSnode (sym (retain-sroot packet b.topics)) s)
        ∙ ap (λ n. (found_by packet.qos (hits path (entries n)), none))
            (retain-sroot packet b.topics))
      (subscribers-eq-hits packet.topic_name path packet.qos b.topics out hp v s)

-- The loop of the code, with the clients that change under it, comes to a selection beforehand: a
-- PUBLISH of a known client on a topic without an error and with a valid QoS, in a well-formed tree, is
-- stored if it asks to be retained, and is then delivered once to each unshared subscription whose
-- filter matches the topic, but those of routers if it does not come from an end user, and to
-- one chosen shared subscription among these. Besides, the client keeps what was found.
pub process_publish_message-eq :
    (w : World) (c : ℕ) (packet : PublishPacket) (b : Broker) (p : Peer) (path : List Bytes)
    → at_address c b.peers ≡ some p
    → HasPath packet.topic_name path
    → valid_qos packet.qos ≡ true
    → IsSnode b.topics.sroot
    → let vs = hits path (entries b.topics.sroot) in
      process_publish_message w c packet b
      ≡ deliver_each w packet (receivers w p.typ b vs) (
          with_peer c (λ r. record r { found = found_by packet.qos vs }) (retain_if_asked packet b))
unfolding process_publish_message
process_publish_message-eq w c packet b p path h hp v s =
    rw (h, process_publish_message)
      (publish_found-eq w c p packet (retain_if_asked packet b)
          (found_by packet.qos (hits path (entries b.topics.sroot)))
          (subscribers-retain packet b path p.found hp v s)
        ∙ ap
            (λ ss. deliver_each w packet ss (
              keep_found c (found_by packet.qos (hits path (entries b.topics.sroot)))
                (retain_if_asked packet b)))
            (receivers-retain w p.typ packet (hits path (entries b.topics.sroot)) b))
