-- ===== src/Broker/Subscribe/Collected.antt =====
-- The retained messages that the loop of `processClientSubscribe` of broker/subscribe.go collects.
use thoth.Base.{
  ℕ, ◌≡◌, refl, sym, subst, ap, ◌∙◌, inl, inr, Bool, true, false, ◌&&◌, some, List, [], ◌∷◌, ◌++◌,
  append-nil, append_assoc, Bytes, Bytes-discrete, length, leb, if◌then◌else◌, Option-cases,
}
use thoth.Packets.{PublishPacket}
use thoth.Assoc.{insert}
use thoth.Heap.{at_address, at_address-modify_view}
use thoth.Sessions.Session as Session
use thoth.Topics.Levels.{levels}
use thoth.Topics.Value.{Value}
use thoth.Topics.Rnode.Lookup.{IsRnode}
use thoth.Topics.Rnode.Answers.{entries, answers}
use thoth.Topics.MemTopics.{fuel, subscribe, qos_failure}
use thoth.Broker.{Broker, World, with_peer, is_none}
use thoth.Broker.Subscribe.{
  parse_share, replace_old, with_session, keep_client_sub, subscribe_new, client_round, rounds,
  rmsgs_in, rmsgs_of, new_subscription,
}
use thoth.Broker.Subscribe.Codes.{is_path}
use thoth.Broker.Subscribe.Views.{with_session-peers, view-replace_old, view-client_round}
use thoth.Broker.Subscribe.Added.{
  path_of, added, all_added, is_here, replace_old-rroot, subscribe-rroot, collect_retained-rmsgs,
  with_session-topics,
}

keep_client_sub-rmsgs :
    (c : ℕ) (t : Bytes) (qos : ℕ) (topic : Bytes) (a : ℕ) (b : Broker)
    → is_here (at_address c b.peers) ≡ true
    → is_path (levels (fuel topic) topic) ≡ true
    → IsRnode b.topics.rroot
    → ((keep_client_sub c t qos topic a b).topics.rroot ≡ b.topics.rroot)
      × (rmsgs_of c (keep_client_sub c t qos topic a b)
          ≡ rmsgs_of c b ++ answers (path_of (levels (fuel topic) topic)) (entries b.topics.rroot))
keep_client_sub-rmsgs c t qos topic a b h k w =
    let b' = with_peer c (λ p. record p { sub_map = insert Bytes-discrete t a p.sub_map }) b in
    let b'' = with_session c (λ s. (Session.add_topic t qos s).0) b' in
    let peers : b''.peers ≡ b'.peers =
      with_session-peers c (λ s. (Session.add_topic t qos s).0) b' in
    let topics : b''.topics ≡ b.topics =
      with_session-topics c (λ s. (Session.add_topic t qos s).0) b' in
    let here : is_here (at_address c b''.peers) ≡ true =
      ap (λ l. is_here (at_address c l)) peers
      ∙ at_address-modify_view is_here c c
          (λ p. record p { sub_map = insert Bytes-discrete t a p.sub_map }) b.peers (λ p. refl)
      ∙ h in
    let rmsgs : rmsgs_of c b'' ≡ rmsgs_of c b =
      ap (λ l. rmsgs_in (at_address c l)) peers
      ∙ at_address-modify_view rmsgs_in c c
          (λ p. record p { sub_map = insert Bytes-discrete t a p.sub_map }) b.peers (λ p. refl) in
    (
      ap (λ x. x.rroot) topics,
      collect_retained-rmsgs c topic b'' here k (subst (λ x. IsRnode x.rroot) (sym topics) w)
          ∙ ap
              (λ x.
                rmsgs_of c b'' ++ answers (path_of (levels (fuel topic) topic)) (entries x.rroot))
              topics
          ∙ ap (λ ms. ms ++ answers (path_of (levels (fuel topic) topic)) (entries b.topics.rroot))
              rmsgs,
    )

-- The broker after a change has the same retained messages, and the client has collected these more.
abbrev Collects : ℕ → Broker → List PublishPacket → Broker → Type 0
Collects c b ms b' = (b'.topics.rroot ≡ b.topics.rroot) × (rmsgs_of c b' ≡ rmsgs_of c b ++ ms)

abbrev broker_of : Broker × ℕ → Broker
broker_of o = o.0

subscribe_new-Collects :
    (c : ℕ) (t : Bytes) (qos : ℕ) (g : Bytes × Bool × Bytes) (b : Broker)
    → is_here (at_address c b.peers) ≡ true
    → IsRnode b.topics.rroot
    → Collects c b
        (added b.topics.rroot qos (some g))
        (subscribe_new (keep_client_sub c t qos g.0) c qos g b).0
subscribe_new-Collects c t qos g b h w =
    let a = length b.subscriptions in
    let o = subscribe g.0 qos (Value.pointer a) b.topics in
    let b' = record b {
      subscriptions = b.subscriptions ++ new_subscription c qos g ∷ [];
      topics = o.0;
    } in
    let (same, fine) = subscribe-rroot g.0 qos a b.topics in
    of_outcome (leb qos 2) (is_path (levels (fuel g.0) g.0)) (is_none o.2) b' o.1 fine same h
      (subst IsRnode (sym same) w) refl refl
  where
    unchanged :
        (b' : Broker) → b'.topics.rroot ≡ b.topics.rroot → b'.peers ≡ b.peers → Collects c b [] b'
    unchanged b' same p =
        (same, ap (λ l. rmsgs_in (at_address c l)) p ∙ sym (append-nil (rmsgs_of c b)))

    of_outcome :
        (x y z : Bool) (b' : Broker) (rqos : ℕ)
        → z ≡ (x && y)
        → b'.topics.rroot ≡ b.topics.rroot
        → is_here (at_address c b'.peers) ≡ true
        → IsRnode b'.topics.rroot
        → b'.peers ≡ b.peers
        → y ≡ is_path (levels (fuel g.0) g.0)
        → Collects c b
            (if x && y
              then answers (path_of (levels (fuel g.0) g.0)) (entries b.topics.rroot)
              else [])
            (broker_of (
              if z
              then (keep_client_sub c t qos g.0 (length b.subscriptions) b', rqos)
              else (b', qos_failure)))
    of_outcome true true false b' rqos f same h w p q = cc
    of_outcome true true true b' rqos f same h w p q =
        let (root, more) =
          keep_client_sub-rmsgs c t qos g.0 (length b.subscriptions) b' h (sym q) w in
        (
          root ∙ same,
          more
              ∙ ap (λ r. rmsgs_of c b' ++ answers (path_of (levels (fuel g.0) g.0)) (entries r))
                  same
              ∙ ap
                  (λ l.
                    rmsgs_in (at_address c l)
                    ++ answers (path_of (levels (fuel g.0) g.0)) (entries b.topics.rroot))
                  p,
        )
    of_outcome true false true b' rqos f same h w p q = cc
    of_outcome true false false b' rqos f same h w p q = unchanged b' same p
    of_outcome false y true b' rqos f same h w p q = cc
    of_outcome false y false b' rqos f same h w p q = unchanged b' same p

client_round-Collects :
    (w : World) (c : ℕ) (t : Bytes) (qos : ℕ) (b : Broker)
    → is_here (at_address c b.peers) ≡ true
    → IsRnode b.topics.rroot
    → Collects c b (added b.topics.rroot qos (parse_share t)) (client_round w c (t, qos) b).0
unfolding client_round
client_round-Collects w c t qos b h v = elim (Option-cases (parse_share t)) [
  | inl e ↦ rw (e, client_round) (refl, sym (append-nil (rmsgs_of c b)))
  | inr (g, e) ↦
      let (same, kept) = replace_old-rroot c t b in
      let (root, more) =
        subscribe_new-Collects c t qos g (replace_old c t b)
          (view-replace_old is_here (λ m p. refl) (λ ms p. refl) c c t b ∙ h)
          (subst IsRnode (sym same) v) in
      rw (e, client_round)
        (
          root ∙ same,
          more
              ∙ ap (λ r. rmsgs_of c (replace_old c t b) ++ added r qos (some g)) same
              ∙ ap (λ ms. ms ++ added b.topics.rroot qos (some g)) kept,
        )
]

pub rounds-Collects :
    (w : World) (c : ℕ) (xs : List (Bytes × ℕ)) (b : Broker) (codes : List ℕ)
    → is_here (at_address c b.peers) ≡ true
    → IsRnode b.topics.rroot
    → rmsgs_of c (rounds (client_round w c) xs (b, codes)).0
      ≡ rmsgs_of c b ++ all_added b.topics.rroot xs
unfolding rounds
rounds-Collects w c [] b codes h v = sym (append-nil (rmsgs_of c b))
rounds-Collects w c ((t, qos) ∷ xs) b codes h v =
    let b' = (client_round w c (t, qos) b).0 in
    let (same, more) = client_round-Collects w c t qos b h v in
    rounds-Collects w c xs b' (codes ++ (client_round w c (t, qos) b).1 ∷ [])
      (view-client_round is_here (λ m p. refl) (λ ms p. refl) c w c (t, qos) b ∙ h)
      (subst IsRnode (sym same) v)
    ∙ ap (λ ms. ms ++ all_added b'.topics.rroot xs) more
    ∙ ap (λ r. (rmsgs_of c b ++ added b.topics.rroot qos (parse_share t)) ++ all_added r xs) same
    ∙ append_assoc (rmsgs_of c b) (added b.topics.rroot qos (parse_share t))
        (all_added b.topics.rroot xs)
