-- ===== src/Broker/Flow.antt =====
-- SUBSCRIBE and then PUBLISH: broker/subscribe.go and broker/publish.go together.
use mathlib.Core.List.{Mem, mem-cons_self}
use mathlib.Core.Logic.{∥∥₁_elim}
use mathlib.Core.List.Perm
use native.Mathlib.Bridge.{le_prop}
use thoth.Base.{
  ℕ, zero, suc, ◌≡◌, ◌<◌, refl, sym, subst, ap, ◌∙◌, arith, Bool, true, false, not, ◌&&◌, none,
  some, List, ◌∷◌, ◌++◌, Bytes, length, if◌then◌else◌,
}
use thoth.Packets.{PublishPacket, ControlPacket}
use thoth.Heap.{at_address, at_address-some, at_address-append}
use thoth.Topics.Value.{Value}
use thoth.Topics.Matching.{matches}
use thoth.Topics.Snode.Entries.{entries}
use thoth.Topics.Snode.Match.{hits}
use thoth.Topics.Snode.Shape.{IsSnode}
use thoth.Topics.Snode.Below.{holds-AreBelow}
use thoth.Topics.MemTopics.{valid_qos, subscribe, subscribers}
use thoth.Topics.MemTopics.Subscriptions.{HasPath, subscribers-subscribe, subscribers-eq-hits}
use thoth.Client.{Client}
use thoth.Broker.{ClientType, Peer, Broker, World, is_router, no_found}
use thoth.Broker.Publish.{process_publish_message}
use thoth.Broker.Publish.Delivery.{
  may_get, peer_gets, is_receiver, selected, unshared, receivers, count_of,
}
use thoth.Broker.Publish.Sent.{IsOnline, replicate, state_of, sent_of, process_publish_message-sent}
use thoth.Broker.Subscribe.{
  parse_share, new_subscription, replace_old, keep_client_sub, client_round,
}
use thoth.Broker.Subscribe.Views.{view-client_round}
use thoth.Broker.Subscribe.Replies.{state-client_round}
use thoth.Broker.Valid.{IsBroker, IsBroker-IsKept}
use thoth.Broker.Kept.{IsServing}
use thoth.Broker.Invariant.Subscribed.{replace_old-IsServing, client_round-IsServing}
use thoth.Broker.Subscribe.Kept.{subscribed, client_round-kept, keep_client_sub-same}
use thoth.Broker.Publish.Among.{count_of-selected, count_of-append}

-- What is found on a topic that a new filter matches.
found-subscribed :
    (filter topic : Bytes) (path q : List Bytes) (qos : ℕ) (b : Broker)
    → HasPath filter path
    → HasPath topic q
    → valid_qos qos ≡ true
    → matches path q ≡ true
    → IsBroker b
    → let after = subscribe filter qos (Value.pointer (length b.subscriptions)) b.topics in
      (after.2 ≡ none)
      × (IsSnode after.0.sroot
          → Mem (Value.pointer (length b.subscriptions)) (hits q (entries after.0.sroot)))
found-subscribed filter topic path q qos b parsed split v m k =
    let a = length b.subscriptions in
    let after = (subscribe filter qos (Value.pointer a) b.topics).0 in
    let (c, e, p) =
      subscribers-subscribe filter topic path q 0 (Value.pointer a) b.topics no_found parsed split
        refl refl k.0.snodes qos v in
    (
      e,
      λ w.
          subst (λ vs. Mem (Value.pointer a) vs)
            (ap (λ o. o.0.subs) (subscribers-eq-hits topic q 0 after no_found split refl w))
            ((Perm.mem_iff p).1 (
              subst
                (λ x. Mem (Value.pointer a) (
                  if x
                  then Value.pointer a ∷ (subscribers topic 0 b.topics no_found).0.subs
                  else (subscribers topic 0 b.topics no_found).0.subs))
                (sym (both m (holds-AreBelow a path b.topics.sroot k.1))) mem-cons_self)),
    )
  where
    both : {x y : Bool} → x ≡ true → y ≡ false → (x && not y) ≡ true
    both h k = ground arith

some_lt-prop : (n : ℕ) → IsProp (0 < n)
some_lt-prop n = le_prop

module _ (w : World) (c : ℕ) (t : Bytes) (qos : ℕ) (filter group topic : Bytes)
    (path q : List Bytes) (b : Broker) (p : Peer) (known : at_address c b.peers ≡ some p)
    (client : is_router p.typ ≡ false) (asked : parse_share t ≡ some (filter, false, group))
    (parsed : HasPath filter path) (split : HasPath topic q) (valid : valid_qos qos ≡ true)
    (matching : matches path q ≡ true) (k : IsBroker b) where
  abbrev before : Broker
  before = replace_old c t b

  abbrev after : Broker
  after = (client_round w c (t, qos) b).0

  serving : IsServing IsBroker c b
  serving = (k, at_address-some c b.peers p known)

  is_found :
      (subscribe filter qos (Value.pointer (length before.subscriptions)) before.topics).2 ≡ none
  is_found =
      (found-subscribed filter topic path q qos before parsed split valid matching
        (replace_old-IsServing IsBroker IsBroker-IsKept c t b serving).0).0

  kept :
      after
      ≡ keep_client_sub c t qos filter
          (length before.subscriptions)
          (subscribed c qos (filter, false, group) before)
  kept = client_round-kept w c t qos (filter, false, group) b asked is_found

  after-topics :
      after.topics
      ≡ (subscribe filter qos (Value.pointer (length before.subscriptions)) before.topics).0
  after-topics =
      ap (λ x. x.topics) kept
      ∙ (keep_client_sub-same c t qos filter (length before.subscriptions)
          (subscribed c qos (filter, false, group) before)).0

  after-new :
      at_address (length before.subscriptions) after.subscriptions
      ≡ some (new_subscription c qos (filter, false, group))
  after-new =
      ap (λ x. at_address (length before.subscriptions) x.subscriptions) kept
      ∙ ap (at_address (length before.subscriptions))
          (keep_client_sub-same c t qos filter (length before.subscriptions)
            (subscribed c qos (filter, false, group) before)).1
      ∙ at_address-append before.subscriptions (new_subscription c qos (filter, false, group))

  gets : (typ to : ClientType) → is_router to ≡ false → may_get typ to ≡ true
  gets ClientType.end_user to h = refl
  gets ClientType.router ClientType.end_user h = refl
  gets ClientType.router ClientType.router h = cc
  gets ClientType.router ClientType.remote h = refl
  gets ClientType.router ClientType.cluster h = refl
  gets ClientType.remote ClientType.end_user h = refl
  gets ClientType.remote ClientType.router h = cc
  gets ClientType.remote ClientType.remote h = refl
  gets ClientType.remote ClientType.cluster h = refl
  gets ClientType.cluster ClientType.end_user h = refl
  gets ClientType.cluster ClientType.router h = cc
  gets ClientType.cluster ClientType.remote h = refl
  gets ClientType.cluster ClientType.cluster h = refl

  not_skipped : (typ : ClientType) → peer_gets typ (at_address c after.peers) ≡ true
  not_skipped typ =
      view-client_round (peer_gets typ) (λ m p. refl) (λ ms p. refl) c w c (t, qos) b
      ∙ ap (peer_gets typ) known
      ∙ gets typ p.typ client

  found_after :
      Mem (Value.pointer (length before.subscriptions)) (hits q (entries after.topics.sroot))
  found_after =
      subst
        (λ x.
          IsSnode x.sroot
          → Mem (Value.pointer (length before.subscriptions)) (hits q (entries x.sroot)))
        (sym after-topics)
        (found-subscribed filter topic path q qos before parsed split valid matching
          (replace_old-IsServing IsBroker IsBroker-IsKept c t b serving).0).1
        (client_round-IsServing IsBroker IsBroker-IsKept w c (t, qos) b serving).0.0.snodes

  receives :
      (w' : World) (typ : ClientType)
      → 0 < count_of c (receivers w' typ after (hits q (entries after.topics.sroot)))
  unfolding is_receiver
  receives w' typ =
      count_of-append c (unshared (selected typ after (hits q (entries after.topics.sroot)))) _ (
        ∥∥₁_elim found_after
          (some_lt-prop
            (count_of c (unshared (selected typ after (hits q (entries after.topics.sroot))))))
          (count_of-selected typ after c (new_subscription c qos (filter, false, group))
            (Value.pointer (length before.subscriptions)) after-new (not_skipped typ) refl refl
            (hits q (entries after.topics.sroot))))

  -- Once a round of SUBSCRIBE has been run for a client that is no router, with a valid QoS and a filter
  -- that is not shared and has no error, in a broker with valid pointers: if that client was online,
  -- every PUBLISH of QoS 0 by a known client, on a topic that the filter matches, is written to it
  -- at least once, behind what was written before, if its connection takes the packet.
  pub publish-client_round :
      (w' : World) (d : ℕ) (publisher : Peer) (packet : PublishPacket) (s : Client)
      → at_address d after.peers ≡ some publisher
      → packet.topic_name ≡ topic
      → packet.qos ≡ 0
      → state_of (at_address c b.peers) ≡ some s
      → IsOnline s
      → w'.writes c (ControlPacket.publish packet) ≡ true
      → (n : ℕ) × (sent_of
            (state_of (at_address c (process_publish_message w' d packet after).peers))
          ≡ s.sent ++ replicate (suc n) (ControlPacket.publish packet))
  publish-client_round w' d publisher packet s h same zeroth e o taken =
      let ss = receivers w' publisher.typ after (hits q (entries after.topics.sroot)) in
      let (n, l) = positive (count_of c ss) (receives w' publisher.typ) in
      (
        n,
        process_publish_message-sent w' d c packet after publisher q s h
              (subst (λ x. HasPath x q) (sym same) split) zeroth
              (client_round-IsServing IsBroker IsBroker-IsKept w c (t, qos) b serving).0.0.snodes
              (state-client_round c w c (t, qos) b ∙ e) o taken
            ∙ ap (λ m. s.sent ++ replicate m (ControlPacket.publish packet)) l,
      )
    where
      positive : (m : ℕ) → 0 < m → (n : ℕ) × (m ≡ suc n)
      positive zero l = absurd (omega arith)
      positive (suc n) l = (n, refl)
