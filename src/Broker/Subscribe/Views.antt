-- ===== src/Broker/Subscribe/Views.antt =====
-- What the rounds of `processClientSubscribe` of broker/subscribe.go leave of the clients: all but the
-- maps of subscriptions and the collected messages.
use thoth.Base.{
  ℕ, ◌≡◌, refl, ap, ◌∙◌, inl, inr, Bool, true, false, Option, none, some, List, [], ◌∷◌, ◌++◌,
  Bytes, Bytes-discrete, length, if◌then◌else◌, Option-cases,
}
use thoth.Packets.{PublishPacket}
use thoth.Assoc.{insert, remove}
use thoth.Heap.{at_address, at_address-modify_view}
use thoth.Sessions.Session as Session
use thoth.Topics.Value.{Value}
use thoth.Topics.MemTopics.{qos_failure, subscribe, retained}
use thoth.Broker.{Peer, Broker, World, with_peer, is_none}
use thoth.Broker.Subscribe.{
  parse_share, subscribe_new, new_subscription, drop_subscription, find_sub, replace_old,
  on_session, with_session, keep_client_sub, client_round, rounds,
}

pub drop_subscription-peers : (a : ℕ) (b : Broker) → (drop_subscription a b).peers ≡ b.peers
unfolding drop_subscription
drop_subscription-peers a b = elim (Option-cases (at_address a b.subscriptions)) [
  | inl e ↦ rw (e, drop_subscription) refl
  | inr (s, e) ↦ rw (e, drop_subscription) refl
]

pub with_session-peers :
    (c : ℕ) (f : Session.Session → Session.Session) (b : Broker)
    → (with_session c f b).peers ≡ b.peers
unfolding with_session
with_session-peers c f b = of_peer (at_address c b.peers)
  where
    of_peer : (o : Option Peer) → (on_session f b o).peers ≡ b.peers
    of_peer none = refl
    of_peer (some p) = refl

abbrev broker_of : Broker × ℕ → Broker
broker_of o = o.0

module _ {C : Type 0} (g : Option Peer → C)
    (same_subs : (m : List (Bytes × ℕ)) (p : Peer)
      → g (some (record p { sub_map = m })) ≡ g (some p))
    (same_rmsgs : (ms : List PublishPacket) (p : Peer)
      → g (some (record p { rmsgs = ms })) ≡ g (some p)) where
  abbrev view : ℕ → Broker → C
  view d b = g (at_address d b.peers)

  view-with_peer :
      (d c : ℕ) (f : Peer → Peer) (b : Broker)
      → ((p : Peer) → g (some (f p)) ≡ g (some p))
      → view d (with_peer c f b) ≡ view d b
  view-with_peer d c f b keeps = at_address-modify_view g c d f b.peers keeps

  pub view-replace_old : (d c : ℕ) (t : Bytes) (b : Broker) → view d (replace_old c t b) ≡ view d b
  unfolding replace_old
  view-replace_old d c t b = elim (Option-cases (find_sub c t b)) [
    | inl e ↦ rw (e, replace_old) refl
    | inr (a, e) ↦
        rw (e, replace_old)
          (view-with_peer d c _ (drop_subscription a b)
              (λ p. same_subs (remove Bytes-discrete t p.sub_map) p)
            ∙ ap (λ h. g (at_address d h)) (drop_subscription-peers a b))
  ]

  pub view-keep_client_sub :
      (d c : ℕ) (t : Bytes) (qos : ℕ) (topic : Bytes) (a : ℕ) (b : Broker)
      → view d (keep_client_sub c t qos topic a b) ≡ view d b
  view-keep_client_sub d c t qos topic a b =
      let b' = with_peer c (λ p. record p { sub_map = insert Bytes-discrete t a p.sub_map }) b in
      let b'' = with_session c (λ s. (Session.add_topic t qos s).0) b' in
      view-with_peer d c (λ p. record p { rmsgs = (retained topic b''.topics p.rmsgs).0 }) b''
        (λ p. same_rmsgs (retained topic b''.topics p.rmsgs).0 p)
      ∙ ap (λ h. g (at_address d h)) (with_session-peers c (λ s. (Session.add_topic t qos s).0) b')
      ∙ view-with_peer d c (λ p. record p { sub_map = insert Bytes-discrete t a p.sub_map }) b
          (λ p. same_subs (insert Bytes-discrete t a p.sub_map) p)

  view-subscribe_new :
      (d c qos : ℕ) (g : Bytes × Bool × Bytes) (keep : ℕ → Broker → Broker) (b : Broker)
      → ((a : ℕ) (b : Broker) → view d (keep a b) ≡ view d b)
      → view d (subscribe_new keep c qos g b).0 ≡ view d b
  view-subscribe_new d c qos g keep b keeps =
      let a = length b.subscriptions in
      let b' = record b {
        subscriptions = b.subscriptions ++ new_subscription c qos g ∷ [];
        topics = (subscribe g.0 qos (Value.pointer a) b.topics).0;
      } in
      of_outcome (is_none (subscribe g.0 qos (Value.pointer a) b.topics).2) (keep a b') b'
        (subscribe g.0 qos (Value.pointer a) b.topics).1 (keeps a b')
    where
      of_outcome :
          (x : Bool) (u v : Broker) (rqos : ℕ)
          → view d u ≡ view d v
          → view d (broker_of (if x then (u, rqos) else (v, qos_failure))) ≡ view d v
      of_outcome true u v rqos h = h
      of_outcome false u v rqos h = refl

  pub view-client_round :
      (d : ℕ) (w : World) (c : ℕ) (x : Bytes × ℕ) (b : Broker)
      → view d (client_round w c x b).0 ≡ view d b
  unfolding client_round
  view-client_round d w c (t, qos) b = elim (Option-cases (parse_share t)) [
    | inl e ↦ rw (e, client_round) refl
    | inr (g, e) ↦
        rw (e, client_round)
          (view-subscribe_new d c qos g (keep_client_sub c t qos g.0) (replace_old c t b)
              (view-keep_client_sub d c t qos g.0)
            ∙ view-replace_old d c t b)
  ]

  pub view-rounds :
      (d : ℕ) (round : Bytes × ℕ → Broker → Broker × ℕ)
      → ((x : Bytes × ℕ) (b : Broker) → view d (round x b).0 ≡ view d b)
      → (xs : List (Bytes × ℕ)) (b : Broker) (codes : List ℕ)
      → view d (rounds round xs (b, codes)).0 ≡ view d b
  unfolding rounds
  view-rounds d round keeps [] b codes = refl
  view-rounds d round keeps (x ∷ xs) b codes =
      view-rounds d round keeps xs (round x b).0 (codes ++ (round x b).1 ∷ []) ∙ keeps x b
