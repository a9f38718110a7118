-- ===== src/Broker/Publish/Delivery.antt =====
-- Whom `ProcessPublishMessage` of broker/publish.go delivers to: its loop, which changes the clients
-- as it goes, against a selection made beforehand.
use thoth.Base.{
  ℕ, zero, suc, ◌≡◌, ◌≢◌, refl, sym, subst, ap, ◌∙◌, inl, inr, arith, Bool, true, false, not, ◌&&◌,
  Option, none, some, List, [], ◌∷◌, ◌++◌, append-nil, append_assoc, length, ◌==◌, ℕ_discrete,
  if◌then◌else◌, Bool-cases, Option-cases,
}
use thoth.Packets.{PublishPacket}
use thoth.Heap.{at_address, at_address-modify_self, at_address-modify_ne, at_address-modify_view}
use thoth.Topics.Value.{Value}
use thoth.Client.Outbound as Outbound
use thoth.Broker.{
  ClientType, Peer, Subscription, Broker, World, with_peer, with_state, is_router, is_end_user,
}
use thoth.Broker.Publish.{
  publish_to, subscription_of, skips, is_skipped, deliver_one, fan_out, share_out,
}

-- Whether a client of the second type gets what one of the first type publishes: a router gets it from end
-- users only, so that the routers do not pass a message on in circles.
abbrev pub may_get : ClientType → ClientType → Bool
may_get ClientType.end_user to = true
may_get ClientType.router ClientType.router = false
may_get ClientType.remote ClientType.router = false
may_get ClientType.cluster ClientType.router = false
may_get from to = true

abbrev pub peer_gets : ClientType → Option Peer → Bool
peer_gets typ none = true
peer_gets typ (some p) = may_get typ p.typ

unfoldable pub is_receiver : ClientType → Subscription → Broker → Bool
is_receiver typ s b = peer_gets typ (at_address s.client b.peers)

-- The test of the code is this one.
not-may_get : (typ to : ClientType) → (is_router to && not (is_end_user typ)) ≡ not (may_get typ to)
not-may_get ClientType.end_user ClientType.end_user = refl
not-may_get ClientType.end_user ClientType.router = refl
not-may_get ClientType.end_user ClientType.remote = refl
not-may_get ClientType.end_user ClientType.cluster = refl
not-may_get ClientType.router ClientType.end_user = refl
not-may_get ClientType.router ClientType.router = refl
not-may_get ClientType.router ClientType.remote = refl
not-may_get ClientType.router ClientType.cluster = refl
not-may_get ClientType.remote ClientType.end_user = refl
not-may_get ClientType.remote ClientType.router = refl
not-may_get ClientType.remote ClientType.remote = refl
not-may_get ClientType.remote ClientType.cluster = refl
not-may_get ClientType.cluster ClientType.end_user = refl
not-may_get ClientType.cluster ClientType.router = refl
not-may_get ClientType.cluster ClientType.remote = refl
not-may_get ClientType.cluster ClientType.cluster = refl

skips-peer_gets : (typ : ClientType) (o : Option Peer) → skips typ o ≡ not (peer_gets typ o)
skips-peer_gets typ none = refl
skips-peer_gets typ (some p) = not-may_get typ p.typ

is_skipped-is_receiver :
    (typ : ClientType) (s : Subscription) (b : Broker)
    → is_skipped typ s b ≡ not (is_receiver typ s b)
unfolding is_skipped is_receiver
is_skipped-is_receiver typ s b = skips-peer_gets typ (at_address s.client b.peers)

-- The subscriptions among the values whose clients get the message.
unfoldable pub selected : ClientType → Broker → List Value → List Subscription
selected typ b [] = []
selected typ b (v ∷ vs) = elim (subscription_of v b) [
  | none ↦ selected typ b vs
  | some s ↦ if is_receiver typ s b then s ∷ selected typ b vs else selected typ b vs
]

abbrev pub unshared : List Subscription → List Subscription
unshared [] = []
unshared (s ∷ ss) = if s.share then unshared ss else s ∷ unshared ss

abbrev pub shared : List Subscription → List Subscription
shared [] = []
shared (s ∷ ss) = if s.share then s ∷ shared ss else shared ss

-- The message goes out to one subscription after the other.
abbrev pub deliver_each : World → PublishPacket → List Subscription → Broker → Broker
deliver_each w packet [] b = b
deliver_each w packet (s ∷ ss) b = deliver_each w packet ss (publish_to w packet s b)

-- The selection sees the types of the clients only, which a change of a client leaves.
is_receiver-with_peer :
    (typ : ClientType) (c : ℕ) (f : Peer → Peer) (r : Subscription) (b : Broker)
    → ((p : Peer) → (f p).typ ≡ p.typ)
    → is_receiver typ r (with_peer c f b) ≡ is_receiver typ r b
unfolding is_receiver
is_receiver-with_peer typ c f r b keeps =
    at_address-modify_view (peer_gets typ) c r.client f b.peers (λ p. ap (may_get typ) (keeps p))

pub selected-with_peer :
    (typ : ClientType) (c : ℕ) (f : Peer → Peer) (vs : List Value) (b : Broker)
    → ((p : Peer) → (f p).typ ≡ p.typ)
    → selected typ (with_peer c f b) vs ≡ selected typ b vs
unfolding selected
selected-with_peer typ c f [] b keeps = refl
selected-with_peer typ c f (Value.pointer a ∷ vs) b keeps =
    elim (Option-cases (at_address a b.subscriptions)) [
      | inl e ↦ rw (e, selected) (selected-with_peer typ c f vs b keeps)
      | inr (r, e) ↦
          rw
            (
              e,
              selected,
              is_receiver-with_peer typ c f r b keeps,
              selected-with_peer typ c f vs b keeps,
            )
            refl
    ]
selected-with_peer typ c f (v ∷ vs) b keeps = selected-with_peer typ c f vs b keeps

share_split :
    (w : World) (typ : ClientType) (packet : PublishPacket) (vs : List Value) (s : Subscription)
    (b : Broker) (q : List Subscription) (share : Bool)
    → let ss = selected typ b vs in
      let b' = publish_to w packet s b in
      fan_out w typ packet vs (b, q ++ s ∷ [])
        ≡ (deliver_each w packet (unshared ss) b, (q ++ s ∷ []) ++ shared ss)
      → fan_out w typ packet vs (b', q) ≡ (
        deliver_each w packet (unshared (selected typ b' vs)) b',
        q ++ shared (selected typ b' vs),
      )
      → fan_out w typ packet vs (if share then (b, q ++ s ∷ []) else (b', q)) ≡ (
        deliver_each w packet (if share then unshared ss else s ∷ unshared ss) b,
        q ++ (if share then s ∷ shared ss else shared ss),
      )
share_split w typ packet vs s b q true h k =
    h
    ∙ ap (λ l. (deliver_each w packet (unshared (selected typ b vs)) b, l))
        (append_assoc q (s ∷ []) (shared (selected typ b vs)))
share_split w typ packet vs s b q false h k =
    k
    ∙ ap (λ l. (deliver_each w packet (unshared l) (publish_to w packet s b), q ++ shared l))
        (selected-with_peer typ s.client
          (with_state (Outbound.publish (w.writes s.client) w.now packet)) vs b (λ p. refl))

-- The loop delivers to the unshared subscriptions that were selected beforehand, in their order, and
-- collects the shared ones.
pub fan_out-eq :
    (w : World) (typ : ClientType) (packet : PublishPacket) (vs : List Value) (b : Broker)
    (q : List Subscription)
    → fan_out w typ packet vs (b, q)
      ≡ (deliver_each w packet (unshared (selected typ b vs)) b, q ++ shared (selected typ b vs))
unfolding fan_out deliver_one selected
fan_out-eq w typ packet [] b q = ap (λ l. (b, l)) (sym (append-nil q))
fan_out-eq w typ packet (v ∷ vs) b q = elim (Option-cases (subscription_of v b)) [
  | inl e ↦ rw (e, fan_out, deliver_one, selected) (fan_out-eq w typ packet vs b q)
  | inr (s, e) ↦ elim (Bool-cases (is_receiver typ s b)) [
    | inr k ↦
        rw (e, is_skipped-is_receiver typ s b, k, fan_out, deliver_one, selected)
          (fan_out-eq w typ packet vs b q)
    | inl k ↦
        rw (e, is_skipped-is_receiver typ s b, k, fan_out, deliver_one, selected)
          (share_split w typ packet vs s b q s.share (fan_out-eq w typ packet vs b (q ++ s ∷ []))
            (fan_out-eq w typ packet vs (publish_to w packet s b) q))
  ]
]

abbrev pub to_list {ℓ} : {A : Type ℓ} → Option A → List A
to_list none = []
to_list (some x) = x ∷ []

-- The shared subscription that is chosen, if there is one.
abbrev pub chosen : World → List Subscription → List Subscription
chosen w q = to_list (at_address (w.intn (length q)) q)

-- All that a message to these subscribers is delivered to.
abbrev pub receivers : World → ClientType → Broker → List Value → List Subscription
receivers w typ b vs = unshared (selected typ b vs) ++ chosen w (shared (selected typ b vs))

deliver_each-append :
    (w : World) (packet : PublishPacket) (ss rs : List Subscription) (b : Broker)
    → deliver_each w packet (ss ++ rs) b ≡ deliver_each w packet rs (deliver_each w packet ss b)
deliver_each-append w packet [] rs b = refl
deliver_each-append w packet (s ∷ ss) rs b =
    deliver_each-append w packet ss rs (publish_to w packet s b)

share_out-eq :
    (w : World) (packet : PublishPacket) (b : Broker) (q : List Subscription)
    → share_out w packet (b, q) ≡ deliver_each w packet (chosen w q) b
unfolding share_out
share_out-eq w packet b q = elim (Option-cases (at_address (w.intn (length q)) q)) [
  | inl e ↦ rw (e, share_out) refl
  | inr (s, e) ↦ rw (e, share_out) refl
]

-- The loop and the choice of a shared subscription together.
pub share_out-fan_out :
    (w : World) (typ : ClientType) (packet : PublishPacket) (vs : List Value) (b : Broker)
    → share_out w packet (fan_out w typ packet vs (b, []))
      ≡ deliver_each w packet (receivers w typ b vs) b
share_out-fan_out w typ packet vs b =
    ap (share_out w packet) (fan_out-eq w typ packet vs b [])
    ∙ share_out-eq w packet (deliver_each w packet (unshared (selected typ b vs)) b)
        (shared (selected typ b vs))
    ∙ sym (
        deliver_each-append w packet (unshared (selected typ b vs))
          (chosen w (shared (selected typ b vs))) b)

-- How many of the subscriptions are those of a client.
abbrev pub count_of : ℕ → List Subscription → ℕ
count_of c [] = 0
count_of c (s ∷ ss) = if s.client == c then suc (count_of c ss) else count_of c ss

abbrev pub times {ℓ} : {A : Type ℓ} → ℕ → (A → A) → A → A
times zero f x = x
times (suc n) f x = times n f (f x)

count_of-hit :
    (c : ℕ) (s : Subscription) (ss : List Subscription)
    → s.client ≡ c
    → count_of c (s ∷ ss) ≡ suc (count_of c ss)
count_of-hit c s ss e = ground arith

count_of-miss :
    (c : ℕ) (s : Subscription) (ss : List Subscription)
    → s.client ≢ c
    → count_of c (s ∷ ss) ≡ count_of c ss
count_of-miss c s ss n = ground arith

-- A client is delivered to once for each of its subscriptions on the list.
pub deliver_each-peer :
    (w : World) (packet : PublishPacket) (c : ℕ) (ss : List Subscription) (b : Broker) (p : Peer)
    → at_address c b.peers ≡ some p
    → at_address c (deliver_each w packet ss b).peers
      ≡ some (with_state (times (count_of c ss) (Outbound.publish (w.writes c) w.now packet)) p)
deliver_each-peer w packet c [] b p h = h
deliver_each-peer w packet c (s ∷ ss) b p h = elim (ℕ_discrete s.client c) [
  | yes e ↦
      deliver_each-peer w packet c ss (publish_to w packet s b)
        (with_state (Outbound.publish (w.writes c) w.now packet) p)
        (subst
          (λ x.
            at_address x b.peers ≡ some p
            → at_address x (publish_to w packet s b).peers
              ≡ some (with_state (Outbound.publish (w.writes x) w.now packet) p))
          e
          (at_address-modify_self s.client
            (with_state (Outbound.publish (w.writes s.client) w.now packet)) b.peers p)
          h)
      ∙ ap (λ n. some (with_state (times n (Outbound.publish (w.writes c) w.now packet)) p))
          (sym (count_of-hit c s ss e))
  | no e ↦
      deliver_each-peer w packet c ss (publish_to w packet s b) p (
        at_address-modify_ne s.client c
          (with_state (Outbound.publish (w.writes s.client) w.now packet)) b.peers e
        ∙ h)
      ∙ ap (λ n. some (with_state (times n (Outbound.publish (w.writes c) w.now packet)) p))
          (sym (count_of-miss c s ss e))
]
