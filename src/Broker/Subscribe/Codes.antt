-- ===== src/Broker/Subscribe/Codes.antt =====
-- The return codes of a SUBACK: those of the loops of broker/subscribe.go, which change the topics as
-- they go, against a code that each filter has by itself.
use thoth.Base.{
  ℕ, ◌≡◌, refl, sym, ap, ◌∙◌, inl, inr, arith, Bool, true, false, Option, none, some, List, [], ◌∷◌,
  ◌++◌, map, append-nil, append_assoc, Bytes, length, ltb, if◌then◌else◌, Bool-cases, Option-cases,
}
use thoth.Topics.Level.{TopicError}
use thoth.Topics.Levels.{Levels, done, bad, level, levels}
use thoth.Topics.Trie.{node, find}
use thoth.Topics.Value.{Value}
use thoth.Topics.Snode.{Snode, sinsert, find_or_new}
use thoth.Topics.Snode.Levels.{insert_at, sinsert-eq-insert_at}
use thoth.Topics.MemTopics.{MemTopics, qos_failure, valid_qos, fuel, subscribe}
use thoth.Broker.{Broker, World, is_none}
use thoth.Broker.Subscribe.{
  parse_share, subscribe_new, replace_old, keep_client_sub, keep_router_sub, client_round,
  router_round, rounds,
}

-- The topic splits into its levels without an error.
abbrev pub is_path : Levels → Bool
is_path done = true
is_path (bad e) = false
is_path (level l path) = is_path path

-- What a filter with a QoS is granted.
abbrev pub granted : Bytes → ℕ → ℕ
granted topic qos =
    if valid_qos qos
    then (if is_path (levels (fuel topic) topic) then qos else qos_failure)
    else qos_failure

-- The same with the shared filters, of which the malformed are refused.
abbrev pub expected_of : ℕ → Option (Bytes × Bool × Bytes) → ℕ
expected_of qos none = qos_failure
expected_of qos (some g) = granted g.0 qos

abbrev pub expected : World → Bytes × ℕ → ℕ
expected w (t, qos) = expected_of qos (parse_share t)

insert_at-is_path :
    (path : Levels) (qos : ℕ) (sub : Value) (n : Snode)
    → is_none (insert_at path qos sub n).1 ≡ is_path path
unfolding insert_at
insert_at-is_path done qos sub (node p ks) = refl
insert_at-is_path (bad e) qos sub (node p ks) = refl
insert_at-is_path (level l path) qos sub (node p ks) =
    insert_at-is_path path qos sub (find_or_new (find l ks))

pub sinsert-is_path :
    (topic : Bytes) (qos : ℕ) (sub : Value) (n : Snode)
    → is_none (sinsert (fuel topic) topic qos sub n).1 ≡ is_path (levels (fuel topic) topic)
sinsert-is_path topic qos sub n =
    ap (λ o. is_none o.1) (sinsert-eq-insert_at (fuel topic) topic qos sub n)
    ∙ insert_at-is_path (levels (fuel topic) topic) qos sub n

-- The code, where the insertion has this outcome.
code_of : Option TopicError → ℕ → ℕ
code_of e rqos = if is_none e then rqos else qos_failure

capped : (qos : ℕ) → valid_qos qos ≡ true → (if ltb 2 qos then 2 else qos) ≡ qos
capped qos v = ground arith

of_outcome :
    (e : Option TopicError) (split : Bool) (rqos qos : ℕ)
    → rqos ≡ qos
    → is_none e ≡ split
    → code_of e (elim e as (λ x. ℕ) [ some x ↦ qos_failure | none ↦ rqos ])
      ≡ (if split then qos else qos_failure)
unfolding code_of
of_outcome none true rqos qos r h = r
of_outcome none false rqos qos r h = cc
of_outcome (some e) true rqos qos r h = cc
of_outcome (some e) false rqos qos r h = refl

subscribe-code :
    (topic : Bytes) (qos a : ℕ) (t : MemTopics)
    → let (t', rqos, e) = subscribe topic qos (Value.pointer a) t in
      code_of e rqos ≡ granted topic qos
unfolding subscribe code_of
subscribe-code topic qos a t = elim (Bool-cases (valid_qos qos)) [
  | inr v ↦ rw (v, subscribe) refl
  | inl v ↦
      rw (v, subscribe)
        (of_outcome
          (sinsert (fuel topic) topic (if ltb 2 qos then 2 else qos) (Value.pointer a) t.sroot).1
          (is_path (levels (fuel topic) topic)) (if ltb 2 qos then 2 else qos) qos (capped qos v)
          (sinsert-is_path topic (if ltb 2 qos then 2 else qos) (Value.pointer a) t.sroot))
]

-- What a round does to the broker aside, its code is the one expected.
abbrev snd : Broker × ℕ → ℕ
snd o = o.1

subscribe_new-code :
    (keep : ℕ → Broker → Broker) (c qos : ℕ) (g : Bytes × Bool × Bytes) (b : Broker)
    → (subscribe_new keep c qos g b).1 ≡ granted g.0 qos
subscribe_new-code keep c qos g b =
    pick (is_none (subscribe g.0 qos (Value.pointer (length b.subscriptions)) b.topics).2) _ _
      (subscribe g.0 qos (Value.pointer (length b.subscriptions)) b.topics).1 qos_failure
    ∙ unfold code_of in subscribe-code g.0 qos (length b.subscriptions) b.topics
  where
    pick :
        (x : Bool) (u v : Broker) (m n : ℕ)
        → snd (if x then (u, m) else (v, n)) ≡ (if x then m else n)
    pick true u v m n = refl
    pick false u v m n = refl

client_round-code :
    (w : World) (c : ℕ) (x : Bytes × ℕ) (b : Broker) → (client_round w c x b).1 ≡ expected w x
unfolding client_round
client_round-code w c (t, qos) b = elim (Option-cases (parse_share t)) [
  | inl e ↦ rw (e, client_round) refl
  | inr (g, e) ↦
      rw (e, client_round)
        (subscribe_new-code (keep_client_sub c t qos g.0) c qos g (replace_old c t b))
]

router_round-code :
    (w : World) (c : ℕ) (x : Bytes × ℕ) (b : Broker) → (router_round w c x b).1 ≡ expected w x
unfolding router_round
router_round-code w c (t, qos) b = elim (Option-cases (parse_share t)) [
  | inl e ↦ rw (e, router_round) refl
  | inr (g, e) ↦ rw (e, router_round) (subscribe_new-code (keep_router_sub c t g.0) c qos g b)
]

rounds-map :
    (round : Bytes × ℕ → Broker → Broker × ℕ) (code : Bytes × ℕ → ℕ)
    → ((x : Bytes × ℕ) (b : Broker) → (round x b).1 ≡ code x)
    → (xs : List (Bytes × ℕ)) (b : Broker) (codes : List ℕ)
    → (rounds round xs (b, codes)).1 ≡ codes ++ map code xs
unfolding rounds
rounds-map round code each [] b codes = sym (append-nil codes)
rounds-map round code each (x ∷ xs) b codes =
    rounds-map round code each xs (round x b).0 (codes ++ (round x b).1 ∷ [])
    ∙ append_assoc codes ((round x b).1 ∷ []) (map code xs)
    ∙ ap (λ n. codes ++ n ∷ map code xs) (each x b)

-- For a client and for a router alike, the codes are one for each filter, in the order of the filters:
-- the QoS that was asked for if it is valid, the filter splits without an error and a shared one is
-- well-formed; else the code of a failure. They depend on nothing but the filters.
pub rounds-expected :
    (w : World) (c : ℕ) (xs : List (Bytes × ℕ)) (b : Broker)
    → ((rounds (client_round w c) xs (b, [])).1 ≡ map (expected w) xs)
      × ((rounds (router_round w c) xs (b, [])).1 ≡ map (expected w) xs)
rounds-expected w c xs b = (
  rounds-map (client_round w c) (expected w) (client_round-code w c) xs b [],
  rounds-map (router_round w c) (expected w) (router_round-code w c) xs b [],
)
