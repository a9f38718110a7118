-- ===== src/Topics/Snode.antt =====
-- `snode` of broker/persistence/topics/memtopics.go: the subscription tree. `topic` is `[]byte`;
-- each recursive call goes on with the rest of the topic, which is shorter, so fuel beyond the
-- topic's length is enough.
pub mod Levels
pub mod Entries
pub mod Insert
pub mod Remove
pub mod Shape
pub mod Below
pub mod Match
pub mod Search
pub mod InTime
pub mod Pruned
pub mod RoundTrip
use thoth.Base.{
  ℕ, zero, suc, Bool, true, false, ◌&&◌, Option, none, some, List, [], ◌∷◌, ◌++◌, Bytes,
  Bytes-discrete, ite, length, take, drop, set, if◌then◌else◌,
}
use thoth.Topics.Level.{
  TopicError, out_of_fuel, no_topic_found, no_topic_for_subscriber, Result, ok, err, mwc, swc,
  next_topic_level,
}
use thoth.Topics.Trie.{Node, Nodes, node, nil, cons, payload, nodes, no_nodes, find, put, delete}
use thoth.Topics.Value.{Value, equal}
use thoth.Topics.Value

-- The fields `subs` and `qos` of a node.
pub record Subs : Type 0 where
  pub subs : List Value
  pub qos : List ℕ

abbrev pub Snode : Type 0
Snode = Node Subs

abbrev pub no_subs : Subs
no_subs = record { subs = []; qos = [] }

abbrev pub new_snode : Snode
new_snode = node no_subs nil

-- What a method of a node leaves behind: the node, and the error that it returns.
abbrev pub Outcome : Type 0 → Type 0
Outcome A = A × Option TopicError

-- `for i := range subs { if equal(subs[i], sub) { … } }`: the first index that passes the test.
unfoldable pub index_of : Value → List Value → Option ℕ
index_of sub [] = none
index_of sub (s ∷ ss) =
    if equal s sub then some 0 else elim (index_of sub ss) [ none ↦ none | some i ↦ some (suc i) ]

-- `append(xs[:i], xs[i+1:]...)`
abbrev pub remove_at {ℓ} : {A : Type ℓ} → ℕ → List A → List A
remove_at i xs = take i xs ++ drop (suc i) xs

-- The end of `sinsert`: update the QoS of a subscriber on the list, or append it. A node has as
-- many entries in `qos` as in `subs`, so the write is in range.
unfoldable pub insert_here : ℕ → Value → Subs → Subs
insert_here qos sub p = elim (index_of sub p.subs) [
  | some i ↦ record p { qos = set p.qos i qos }
  | none ↦ record { subs = p.subs ++ sub ∷ []; qos = p.qos ++ qos ∷ [] }
]

abbrev pub find_or_new : Option Snode → Snode
find_or_new none = new_snode
find_or_new (some n) = n

-- The node below is in the map before the recursive call, so it stays there if that call fails.
unfoldable pub sinsert : ℕ → Bytes → ℕ → Value → Snode → Outcome Snode
sinsert zero topic qos sub n = (n, some out_of_fuel)
sinsert (suc f) [] qos sub (node p ks) = (node (insert_here qos sub p) ks, none)
sinsert (suc f) (c ∷ topic) qos sub (node p ks) = elim (next_topic_level (c ∷ topic)) [
  | err e ↦ (node p ks, some e)
  | ok (level, rem) ↦
      let (n, r) = sinsert f rem qos sub (find_or_new (find level ks)) in
      (node p (put level n ks), r)
]

-- The end of `sremove`: `nil` removes all subscribers.
unfoldable pub remove_here : Value → Subs → Outcome Subs
remove_here Value.nil p = (no_subs, none)
remove_here sub p = elim (index_of sub p.subs) [
  | some i ↦ (record { subs = remove_at i p.subs; qos = remove_at i p.qos }, none)
  | none ↦ (p, some no_topic_for_subscriber)
]

-- `len(n.subs) == 0 && len(n.snodes) == 0`
abbrev pub is_empty : Snode → Bool
is_empty (node p ks) = elim p.subs [ [] ↦ no_nodes ks | s ∷ ss ↦ false ]

-- The node that the recursive call changed is in the map, and leaves it if it is empty.
abbrev pub prune : Bytes → Snode → Nodes Subs → Nodes Subs
prune level n ks = if is_empty n then delete level ks else put level n ks

-- What follows the recursive call of `sremove`: an error is returned.
abbrev pub removed_below : Bytes → Subs → Nodes Subs → Outcome Snode → Outcome Snode
removed_below level p ks (n, some e) = (node p (put level n ks), some e)
removed_below level p ks (n, none) = (node p (prune level n ks), none)

unfoldable pub sremove : ℕ → Bytes → Value → Snode → Outcome Snode
sremove zero topic sub n = (n, some out_of_fuel)
sremove (suc f) [] sub (node p ks) = let (q, r) = remove_here sub p in (node q ks, r)
sremove (suc f) (c ∷ topic) sub (node p ks) = elim (next_topic_level (c ∷ topic)) [
  | err e ↦ (node p ks, some e)
  | ok (level, rem) ↦ elim (find level ks) [
    | none ↦ (node p ks, some no_topic_found)
    | some n ↦ removed_below level p ks (sremove f rem sub n)
  ]
]

-- The slices `*subs` and `*qoss` that a search appends to.
pub record Found : Type 0 where
  pub subs : List Value
  pub qoss : List ℕ

-- `matchQos`: every subscriber of the node, with the QoS of the search.
unfoldable pub match_qos : ℕ → List Value → Found → Found
match_qos qos [] out = out
match_qos qos (s ∷ ss) out =
    match_qos qos ss (record { subs = out.subs ++ s ∷ []; qoss = out.qoss ++ qos ∷ [] })

unfoldable pub match_node : ℕ → Snode → Found → Found
unfolding match_qos
match_node qos n = match_qos qos (payload n).subs

abbrev pub match_found : ℕ → Option Snode → Found → Found
match_found qos none out = out
match_found qos (some n) out = match_node qos n out

-- One round of the `range` loop of `smatch`: `k` and `n` are the key and the node, `next` is the
-- recursive call.
unfoldable pub visit :
    (Snode → Found → Outcome Found) → ℕ → Bytes → Bytes → Snode → Found → Outcome Found
unfolding match_node
visit next qos level k n out =
    ite (Bytes-discrete k mwc) (match_node qos n out, none)
      (ite (Bytes-discrete k swc) (next n out)
        (ite (Bytes-discrete k level) (next n out) (out, none)))

-- The loop, which returns at the first error.
unfoldable pub smatch_nodes :
    (Snode → Found → Outcome Found) → ℕ → Bytes → Nodes Subs → Found → Outcome Found
smatch_nodes next qos level nil out = (out, none)
smatch_nodes next qos level (cons k n ks) out =
    let (out', r) = visit next qos level k n out in
    elim r [ some e ↦ (out', some e) | none ↦ smatch_nodes next qos level ks out' ]

unfoldable pub smatch : ℕ → Bytes → ℕ → Snode → Found → Outcome Found
smatch zero topic qos n out = (out, some out_of_fuel)
smatch (suc f) [] qos (node p ks) out =
    (match_found qos (find mwc ks) (match_node qos (node p ks) out), none)
smatch (suc f) (c ∷ topic) qos (node p ks) out = elim (next_topic_level (c ∷ topic)) [
  | err e ↦ (out, some e)
  | ok (level, rem) ↦ smatch_nodes (smatch f rem qos) qos level ks out
]
