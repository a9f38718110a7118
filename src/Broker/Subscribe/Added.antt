-- ===== src/Broker/Subscribe/Added.antt =====
-- The retained messages that a filter of a SUBSCRIBE adds to those collected: the steps of a round of
-- `processClientSubscribe` of broker/subscribe.go.
use thoth.Base.{
  ℕ, ◌≡◌, refl, sym, ap, ◌∙◌, inl, inr, ◌⊎◌, arith, Bool, true, false, ◌&&◌, Option, none, some,
  List, [], ◌∷◌, ◌++◌, Bytes, Bytes-discrete, leb, ltb, if◌then◌else◌, Bool-cases, Option-cases,
}
use thoth.Packets.{PublishPacket}
use thoth.Assoc.{remove}
use thoth.Heap.{at_address, at_address-modify_self, at_address-modify_view}
use thoth.Sessions.Session as Session
use thoth.Topics.Levels.{Levels, done, bad, level, levels, of_path}
use thoth.Topics.Value.{Value}
use thoth.Topics.Rnode.{Rnode}
use thoth.Topics.Rnode.Lookup.{IsRnode}
use thoth.Topics.Rnode.Answers.{entries, answers}
use thoth.Topics.MemTopics.{MemTopics, fuel, valid_qos, subscribe, unsubscribe, retained}
use thoth.Topics.MemTopics.Retention.{retained-eq-answers}
use thoth.Broker.{Peer, Broker, is_none}
use thoth.Broker.Subscribe.{
  parse_share, find_sub, drop_subscription, replace_old, with_session, on_session, collect_retained,
  rmsgs_in, rmsgs_of,
}
use thoth.Broker.Subscribe.Grants.{IsFilterOf, Reads, parse_share-Reads}
use thoth.Broker.Subscribe.Codes.{is_path, sinsert-is_path}
use thoth.Broker.Subscribe.Views.{drop_subscription-peers}

abbrev pub path_of : Levels → List Bytes
path_of done = []
path_of (bad e) = []
path_of (level l path) = l ∷ path_of path

-- The messages of the tree that a topic with this QoS matches, where it is granted.
abbrev pub matched : Rnode → Bytes → ℕ → List PublishPacket
matched tree topic qos =
    if leb qos 2 && is_path (levels (fuel topic) topic)
    then answers (path_of (levels (fuel topic) topic)) (entries tree)
    else []

-- What a filter adds by its topic; one without a topic adds nothing.
abbrev pub IsAdded : Rnode → Bytes × ℕ → List PublishPacket → Type 0
IsAdded tree (t, qos) now =
    ((topic : Bytes) × IsFilterOf t topic × (now ≡ matched tree topic qos))
    ⊎ (((topic : Bytes) → ¬ IsFilterOf t topic) × (now ≡ []))

abbrev pub AreAdded : Rnode → List (Bytes × ℕ) → List PublishPacket → Type 0
AreAdded tree [] ms = ms ≡ []
AreAdded tree (x ∷ xs) ms =
    (now : List PublishPacket) × (later : List PublishPacket) × IsAdded tree x now
    × AreAdded tree xs later
    × (ms ≡ now ++ later)

-- The same by the code's reading of the filters.
abbrev pub added : Rnode → ℕ → Option (Bytes × Bool × Bytes) → List PublishPacket
added tree qos none = []
added tree qos (some (topic, shared, name)) = matched tree topic qos

abbrev pub all_added : Rnode → List (Bytes × ℕ) → List PublishPacket
all_added tree [] = []
all_added tree ((t, qos) ∷ xs) = added tree qos (parse_share t) ++ all_added tree xs

added-IsAdded :
    (tree : Rnode) (t : Bytes) (qos : ℕ) → IsAdded tree (t, qos) (added tree qos (parse_share t))
added-IsAdded tree t qos = of_reading (parse_share t) (parse_share-Reads t)
  where
    of_reading :
        (o : Option (Bytes × Bool × Bytes)) → Reads t o → IsAdded tree (t, qos) (added tree qos o)
    of_reading none k = inr (k, refl)
    of_reading (some (topic, shared, name)) k = inl (topic, k, refl)

pub all_added-AreAdded :
    (tree : Rnode) (xs : List (Bytes × ℕ)) → AreAdded tree xs (all_added tree xs)
all_added-AreAdded tree [] = refl
all_added-AreAdded tree ((t, qos) ∷ xs) = (
  added tree qos (parse_share t),
  all_added tree xs,
  added-IsAdded tree t qos,
  all_added-AreAdded tree xs,
  refl,
)

abbrev pub is_here : Option Peer → Bool
is_here none = false
is_here (some p) = true

path_of-eq : (l : Levels) → is_path l ≡ true → l ≡ of_path (path_of l)
path_of-eq done h = refl
path_of-eq (bad e) h = cc
path_of-eq (level x l) h = ap (level x) (path_of-eq l h)

pub subscribe-rroot :
    (topic : Bytes) (qos a : ℕ) (t : MemTopics)
    → ((subscribe topic qos (Value.pointer a) t).0.rroot ≡ t.rroot)
      × (is_none (subscribe topic qos (Value.pointer a) t).2
          ≡ (leb qos 2 && is_path (levels (fuel topic) topic)))
unfolding subscribe
subscribe-rroot topic qos a t = elim (Bool-cases (valid_qos qos)) [
  | inr v ↦ rw (v, subscribe) (refl, ground arith)
  | inl v ↦
      rw (v, subscribe)
        (
          refl,
          sinsert-is_path topic (if ltb 2 qos then 2 else qos) (Value.pointer a) t.sroot
              ∙ ground arith,
        )
]

drop_subscription-rroot :
    (a : ℕ) (b : Broker) → (drop_subscription a b).topics.rroot ≡ b.topics.rroot
unfolding drop_subscription unsubscribe
drop_subscription-rroot a b = elim (Option-cases (at_address a b.subscriptions)) [
  | inl e ↦ rw (e, drop_subscription) refl
  | inr (s, e) ↦ rw (e, drop_subscription) refl
]

pub replace_old-rroot :
    (c : ℕ) (t : Bytes) (b : Broker)
    → ((replace_old c t b).topics.rroot ≡ b.topics.rroot)
      × (rmsgs_of c (replace_old c t b) ≡ rmsgs_of c b)
unfolding replace_old
replace_old-rroot c t b = elim (Option-cases (find_sub c t b)) [
  | inl e ↦ rw (e, replace_old) (refl, refl)
  | inr (a, e) ↦
      rw (e, replace_old)
        (
          drop_subscription-rroot a b,
          at_address-modify_view rmsgs_in c c
                (λ p. record p { sub_map = remove Bytes-discrete t p.sub_map })
                (drop_subscription a b).peers (λ p. refl)
              ∙ ap (λ h. rmsgs_in (at_address c h)) (drop_subscription-peers a b),
        )
]

pub with_session-topics :
    (c : ℕ) (f : Session.Session → Session.Session) (b : Broker)
    → (with_session c f b).topics ≡ b.topics
unfolding with_session
with_session-topics c f b = of_peer (at_address c b.peers)
  where
    of_peer : (o : Option Peer) → (on_session f b o).topics ≡ b.topics
    of_peer none = refl
    of_peer (some p) = refl

-- What is collected by a search that does not fail.
pub collect_retained-rmsgs :
    (c : ℕ) (topic : Bytes) (b : Broker)
    → is_here (at_address c b.peers) ≡ true
    → is_path (levels (fuel topic) topic) ≡ true
    → IsRnode b.topics.rroot
    → rmsgs_of c (collect_retained c topic b)
      ≡ rmsgs_of c b ++ answers (path_of (levels (fuel topic) topic)) (entries b.topics.rroot)
collect_retained-rmsgs c topic b h k w = elim (Option-cases (at_address c b.peers)) [
  | inl e ↦ absurd (gone e h)
  | inr (p, e) ↦
      ap rmsgs_in (
        at_address-modify_self c (λ p. record p { rmsgs = (retained topic b.topics p.rmsgs).0 })
          b.peers p e)
      ∙ ap (λ r. r.0)
          (retained-eq-answers topic (path_of (levels (fuel topic) topic)) b.topics p.rmsgs
            (path_of-eq (levels (fuel topic) topic) k) w)
      ∙ ap
          (λ o.
            rmsgs_in o ++ answers (path_of (levels (fuel topic) topic)) (entries b.topics.rroot))
          (sym e)
]
  where
    gone : {o : Option Peer} → o ≡ none → is_here o ≡ true → ⊥
    gone e h = cc
