-- ===== src/Broker/Subscribe/Grants.antt =====
-- The return codes of a SUBACK in broker/subscribe.go, from the filters alone.
use thoth.Base.{
  ℕ, zero, suc, ◌≡◌, ◌≢◌, ◌⊎◌, inl, inr, refl, sym, subst, ap, ◌∙◌, arith, Bool, true, false, ◌&&◌,
  Option, none, some, List, [], ◌∷◌, ◌++◌, map, Bytes, Bytes-discrete, length, take, drop, leb,
  if_neg, if◌then◌else◌, Bool-cases,
}
use thoth.Topics.Levels.{levels}
use thoth.Topics.MemTopics.{fuel, valid_qos, qos_failure}
use thoth.Broker.{Broker, World}
use thoth.Broker.Publish.{has_prefix}
use thoth.Broker.Groups.{find_group, IsGroup, find_group-iff-IsGroup}
use thoth.Broker.Subscribe.{
  share_prefix, shared_of, parse_share, client_round, router_round, rounds,
}
use thoth.Broker.Subscribe.Codes.{is_path, granted, expected_of, expected, rounds-expected}
use thoth.Broker.Subscribe.Shares.{prefixed, drop-append, parse_share-prefixed}

-- The topic that a filter subscribes to: its own, or what follows "$share/", the name of a group and "/".
abbrev pub IsFilterOf : Bytes → Bytes → Type 0
IsFilterOf t topic =
    ((topic ≡ t) × ((s : Bytes) → t ≢ share_prefix ++ s))
    ⊎ ((s : Bytes) × (name : Bytes) × (t ≡ share_prefix ++ s) × IsGroup s name topic)

-- The QoS that was asked for, if it is at most 2 and the topic splits into levels without an error.
abbrev pub answer_to : Bytes → ℕ → ℕ
answer_to topic qos = if leb qos 2 && is_path (levels (fuel topic) topic) then qos else 0x80

-- The code of a filter with a QoS; a filter without a topic is refused.
abbrev pub IsCode : Bytes × ℕ → ℕ → Type 0
IsCode (t, qos) code =
    ((topic : Bytes) × IsFilterOf t topic × (code ≡ answer_to topic qos))
    ⊎ (((topic : Bytes) → ¬ IsFilterOf t topic) × (code ≡ 0x80))

abbrev pub AreCodes : List (Bytes × ℕ) → List ℕ → Type 0
AreCodes [] codes = codes ≡ []
AreCodes (x ∷ xs) [] = ⊥
AreCodes (x ∷ xs) (code ∷ codes) = IsCode x code × AreCodes xs codes

granted-answer_to : (topic : Bytes) (qos : ℕ) → granted topic qos ≡ answer_to topic qos
granted-answer_to topic qos = of_test (is_path (levels (fuel topic) topic)) qos
  where
    of_test :
        (x : Bool) (qos : ℕ)
        → ◌≡◌ {A = ℕ}
            (if valid_qos qos then (if x then qos else qos_failure) else qos_failure)
            (if leb qos 2 && x then qos else 0x80)
    of_test x qos = ground arith

take-drop : (n : ℕ) (s : Bytes) → take n s ++ drop n s ≡ s
take-drop zero s = refl
take-drop (suc n) [] = refl
take-drop (suc n) (c ∷ s) = ap (◌∷◌ c) (take-drop n s)

with_prefix :
    (t : Bytes)
    → has_prefix t share_prefix ≡ true
    → t ≡ share_prefix ++ drop (length share_prefix) t
with_prefix t h = elim (Bytes-discrete (take (length share_prefix) t) share_prefix) [
  | yes e ↦ sym (take-drop (length share_prefix) t) ∙ ap (λ x. x ++ drop (length share_prefix) t) e
  | no n ↦ absurd (
      differ
        (sym h ∙ if_neg (Bytes-discrete (take (length share_prefix) t) share_prefix) n true false))
]
  where
    differ : true ≡ false → ⊥
    differ e = cc

parse_share-plain :
    (t : Bytes) → has_prefix t share_prefix ≡ false → parse_share t ≡ some (t, false, [])
unfolding parse_share
parse_share-plain t h =
    ap
      (λ x.
        if x then shared_of (find_group (drop (length share_prefix) t)) else some (t, false, []))
      h

-- What a filter is read as is its topic, if it has one.
abbrev pub Reads : Bytes → Option (Bytes × Bool × Bytes) → Type 0
Reads t none = (topic : Bytes) → ¬ IsFilterOf t topic
Reads t (some g) = IsFilterOf t g.0

plain-Reads : (t : Bytes) → has_prefix t share_prefix ≡ false → Reads t (parse_share t)
plain-Reads t h =
    subst (Reads t) (sym (parse_share-plain t h)) (
      inl
        (refl, λ s e. differ (sym (prefixed s) ∙ ap (λ x. has_prefix x share_prefix) (sym e) ∙ h)))
  where
    differ : true ≡ false → ⊥
    differ e = cc

not_found : (s name topic : Bytes) → find_group s ≡ none → find_group s ≡ some (name, topic) → ⊥
not_found s name topic e k = cc

shared-Reads :
    (s : Bytes) (o : Option (Bytes × Bytes))
    → find_group s ≡ o
    → Reads (share_prefix ++ s) (shared_of o)
shared-Reads s (some (name, topic)) e =
    inr (s, name, refl, (find_group-iff-IsGroup s name topic).0 e)
shared-Reads s none e = refused
  where
    refused : (topic : Bytes) → ¬ IsFilterOf (share_prefix ++ s) topic
    refused topic (inl (k, n)) = n s refl
    refused topic (inr (s', name, k, g)) = not_found s name topic e (
        subst (λ x. find_group x ≡ some (name, topic))
          (sym (drop-append share_prefix s')
            ∙ ap (drop (length share_prefix)) (sym k)
            ∙ drop-append share_prefix s)
          ((find_group-iff-IsGroup s' name topic).1 g))

pub parse_share-Reads : (t : Bytes) → Reads t (parse_share t)
parse_share-Reads t = elim (Bool-cases (has_prefix t share_prefix)) [
  | inr h ↦ plain-Reads t h
  | inl h ↦
      subst (λ y. Reads y (parse_share y)) (sym (with_prefix t h))
        (subst (Reads (share_prefix ++ drop (length share_prefix) t))
          (sym (parse_share-prefixed (drop (length share_prefix) t)))
          (shared-Reads (drop (length share_prefix) t) (find_group (drop (length share_prefix) t))
            refl))
]

expected-IsCode : (w : World) (x : Bytes × ℕ) → IsCode x (expected w x)
expected-IsCode w (t, qos) = of_reading (parse_share t) (parse_share-Reads t)
  where
    of_reading :
        (o : Option (Bytes × Bool × Bytes)) → Reads t o → IsCode (t, qos) (expected_of qos o)
    of_reading none k = inr (k, refl)
    of_reading (some (topic, shared, name)) k = inl (topic, k, granted-answer_to topic qos)

pub map-AreCodes : (w : World) (xs : List (Bytes × ℕ)) → AreCodes xs (map (expected w) xs)
map-AreCodes w [] = refl
map-AreCodes w (x ∷ xs) = (expected-IsCode w x, map-AreCodes w xs)

-- For a client and for a router alike, the codes of a SUBACK are one for each filter, in the order of the
-- filters: the QoS that was asked for, if it is at most 2 and the topic of the filter splits into levels
-- without an error, else 0x80. The topic of a filter is the filter itself, or where that starts with "$share/", what
-- follows the name of the group; a filter with "$share/" but without a well-formed group is refused with 0x80.
pub rounds-AreCodes :
    (w : World) (c : ℕ) (xs : List (Bytes × ℕ)) (b : Broker)
    → AreCodes xs (rounds (client_round w c) xs (b, [])).1
      × AreCodes xs (rounds (router_round w c) xs (b, [])).1
rounds-AreCodes w c xs b = (
  subst (AreCodes xs) (sym (rounds-expected w c xs b).0) (map-AreCodes w xs),
  subst (AreCodes xs) (sym (rounds-expected w c xs b).1) (map-AreCodes w xs),
)
