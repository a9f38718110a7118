-- ===== src/Broker/Unsubscribe/Ended.antt =====
-- What an UNSUBSCRIBE of a client ends: `processClientUnsubscribe` of broker/unsubscribe.go.
use mathlib.Core.List.{Perm}
use thoth.Base.{
  ℕ, ◌≡◌, refl, sym, subst, ap, ◌∙◌, true, Option, none, some, List, ◌∷◌, Bytes, Bytes-discrete,
  if◌then◌else◌,
}
use thoth.Assoc.{remove, lookup-remove_self}
use thoth.Heap.{at_address, at_address-modify_self}
use thoth.Sessions.Session as Session
use thoth.Topics.Value.{Value}
use thoth.Topics.Matching.{matches}
use thoth.Topics.Snode.Entries.{entries, holds}
use thoth.Topics.Snode.Match.{hits}
use thoth.Topics.MemTopics.{unsubscribe}
use thoth.Topics.MemTopics.Subscriptions.{HasPath, subscribers-eq-hits, subscribers-unsubscribe}
use thoth.Topics.MemTopics.Invariant.{IsMemTopics, Call, step, step-IsMemTopics}
use thoth.Broker.{Peer, Subscription, Broker, no_found}
use thoth.Broker.Subscribe.{sub_in, find_sub, drop_subscription, forget, with_session, on_session}
use thoth.Broker.Subscribe.Views.{drop_subscription-peers, with_session-peers}
use thoth.Broker.Unsubscribe.{client_unsubscribe}

drop_subscription-topics :
    (a : ℕ) (s : Subscription) (b : Broker)
    → at_address a b.subscriptions ≡ some s
    → (drop_subscription a b).topics ≡ (unsubscribe s.topic (Value.pointer a) b.topics).0
unfolding drop_subscription
drop_subscription-topics a s b e = rw (e, drop_subscription) refl

with_session-topics :
    (c : ℕ) (f : Session.Session → Session.Session) (b : Broker)
    → (with_session c f b).topics ≡ b.topics
unfolding with_session
with_session-topics c f b = of_peer (at_address c b.peers)
  where
    of_peer : (o : Option Peer) → (on_session f b o).topics ≡ b.topics
    of_peer none = refl
    of_peer (some p) = refl

-- The broker once the subscription at an address is dropped and the session has let its topic go.
abbrev let_go : ℕ → Bytes → ℕ → Broker → Broker
let_go c t a b = with_session c (λ s. (Session.remove_topic t s).0) (drop_subscription a b)

client_unsubscribe-eq :
    (c : ℕ) (t : Bytes) (a : ℕ) (b : Broker)
    → find_sub c t b ≡ some a
    → client_unsubscribe c t b ≡ forget c t (let_go c t a b)
unfolding client_unsubscribe
client_unsubscribe-eq c t a b h = rw (h, client_unsubscribe) refl

let_go-peers : (c : ℕ) (t : Bytes) (a : ℕ) (b : Broker) → (let_go c t a b).peers ≡ b.peers
let_go-peers c t a b =
    with_session-peers c (λ s. (Session.remove_topic t s).0) (drop_subscription a b)
    ∙ drop_subscription-peers a b

peer_with : (t : Bytes) (a : ℕ) (o : Option Peer) → sub_in t o ≡ some a → (p : Peer) × (o ≡ some p)
peer_with t a none h = cc
peer_with t a (some p) h = (p, refl)

-- An UNSUBSCRIBE of a client for a filter that leads to one of its subscriptions, which stands in the tree
-- at its own topic, in a well-formed tree: the client has no subscription for that filter any more,
-- and what is found on any topic is, the order aside, what was found before, but that one
-- subscription once less if its topic matches.
pub client_unsubscribe-ends :
    (c : ℕ) (t topic : Bytes) (a : ℕ) (s : Subscription) (path q : List Bytes) (b : Broker)
    → find_sub c t b ≡ some a
    → at_address a b.subscriptions ≡ some s
    → HasPath s.topic path
    → HasPath topic q
    → holds path (Value.pointer a) b.topics.sroot ≡ true
    → IsMemTopics b.topics
    → let after = client_unsubscribe c t b in
      let left = hits q (entries after.topics.sroot) in
      (find_sub c t after ≡ none)
      × Perm
          (hits q (entries b.topics.sroot))
          (if matches path q then Value.pointer a ∷ left else left)
unfolding step
client_unsubscribe-ends c t topic a s path q b f e parsed split h w =
    let (p, known) = peer_with t a (at_address c b.peers) f in
    let gone = (unsubscribe s.topic (Value.pointer a) b.topics).0 in
    let same : (client_unsubscribe c t b).topics ≡ gone =
      ap (λ x. x.topics) (client_unsubscribe-eq c t a b f)
      ∙ with_session-topics c (λ s. (Session.remove_topic t s).0) (drop_subscription a b)
      ∙ drop_subscription-topics a s b e in
    (
      ap (find_sub c t) (client_unsubscribe-eq c t a b f)
          ∙ ap (sub_in t) (
              at_address-modify_self c
                (λ p. record p { sub_map = remove Bytes-discrete t p.sub_map })
                (let_go c t a b).peers p (ap (at_address c) (let_go-peers c t a b) ∙ known))
          ∙ lookup-remove_self Bytes-discrete t p.sub_map,
      subst
          (λ x. Perm (hits q (entries b.topics.sroot)) (
            if matches path q
            then Value.pointer a ∷ hits q (entries x.sroot)
            else hits q (entries x.sroot)))
          (sym same)
          (rw
            (
              ← ap (λ o. o.0.subs)
                  (subscribers-eq-hits topic q 0 b.topics no_found split refl w.snodes),
              ← ap (λ o. o.0.subs)
                  (subscribers-eq-hits topic q 0 gone no_found split refl
                    (step-IsMemTopics (Call.unsubscribes s.topic (Value.pointer a)) b.topics
                      w).snodes),
            )
            (subscribers-unsubscribe s.topic topic path q 0 (Value.pointer a) b.topics no_found
              parsed split refl refl w.snodes h).1),
    )
