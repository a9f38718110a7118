-- ===== src/Topics/Rnode.antt =====
-- `rnode` of broker/persistence/topics/memtopics.go: the tree of retained messages. The fuel is as
-- for `snode`.
pub mod Levels
pub mod Lookup
pub mod Clear
pub mod Answers
pub mod Search
pub mod InTime
pub mod Shape
pub mod Parent
use thoth.Base.{
  ℕ, zero, suc, Option, none, some, List, [], ◌∷◌, ◌++◌, Bytes, Bytes-discrete, ite, if◌then◌else◌,
}
use thoth.Packets.{PublishPacket}
use thoth.Topics.Level.{
  TopicError, out_of_fuel, no_topic_found, ok, err, mwc, swc, next_topic_level,
}
use thoth.Topics.Trie.{Node, Nodes, node, nil, cons, nodes, no_nodes, find, put, delete}

-- The field `msg`.
abbrev pub Msg : Type 0
Msg = Option PublishPacket

abbrev pub Rnode : Type 0
Rnode = Node Msg

abbrev pub new_rnode : Rnode
new_rnode = node none nil

abbrev pub Outcome : Type 0 → Type 0
Outcome A = A × Option TopicError

abbrev pub find_or_new : Option Rnode → Rnode
find_or_new none = new_rnode
find_or_new (some n) = n

unfoldable pub rinsert_or_update : ℕ → Bytes → PublishPacket → Rnode → Outcome Rnode
rinsert_or_update zero topic msg n = (n, some out_of_fuel)
rinsert_or_update (suc f) [] msg (node m ks) = (node (some msg) ks, none)
rinsert_or_update (suc f) (c ∷ topic) msg (node m ks) = elim (next_topic_level (c ∷ topic)) [
  | err e ↦ (node m ks, some e)
  | ok (level, rem) ↦
      let (n, r) = rinsert_or_update f rem msg (find_or_new (find level ks)) in
      (node m (put level n ks), r)
]

-- `len(n.rnodes) == 0`: the message of the node is not looked at.
abbrev pub prune : Bytes → Rnode → Nodes Msg → Nodes Msg
prune level n ks = if no_nodes (nodes n) then delete level ks else put level n ks

-- What follows the recursive call of `rremove`: an error is returned.
abbrev pub removed_below : Bytes → Msg → Nodes Msg → Outcome Rnode → Outcome Rnode
removed_below level m ks (n, some e) = (node m (put level n ks), some e)
removed_below level m ks (n, none) = (node m (prune level n ks), none)

unfoldable pub rremove : ℕ → Bytes → Rnode → Outcome Rnode
rremove zero topic n = (n, some out_of_fuel)
rremove (suc f) [] (node m ks) = (node none ks, none)
rremove (suc f) (c ∷ topic) (node m ks) = elim (next_topic_level (c ∷ topic)) [
  | err e ↦ (node m ks, some e)
  | ok (level, rem) ↦ elim (find level ks) [
    | none ↦ (node m ks, some no_topic_found)
    | some n ↦ removed_below level m ks (rremove f rem n)
  ]
]

-- `if this.msg != nil { *msgs = append(*msgs, this.msg) }`
abbrev pub append_msg : Msg → List PublishPacket → List PublishPacket
append_msg none msgs = msgs
append_msg (some m) msgs = msgs ++ m ∷ []

unfoldable mutual
  pub all_retained : Rnode → List PublishPacket → List PublishPacket
  all_retained (node m ks) msgs = all_retained_below ks (append_msg m msgs)

  -- The `range` loop.
  pub all_retained_below : Nodes Msg → List PublishPacket → List PublishPacket
  all_retained_below nil msgs = msgs
  all_retained_below (cons k n ks) msgs = all_retained_below ks (all_retained n msgs)

-- The `range` loop of `rmatch` under "+", which returns at the first error; `next` is the
-- recursive call.
unfoldable pub rmatch_nodes :
    (Rnode → List PublishPacket → Outcome (List PublishPacket))
    → Nodes Msg
    → List PublishPacket
    → Outcome (List PublishPacket)
rmatch_nodes next nil msgs = (msgs, none)
rmatch_nodes next (cons k n ks) msgs =
    let (msgs', r) = next n msgs in
    elim r [ some e ↦ (msgs', some e) | none ↦ rmatch_nodes next ks msgs' ]

-- The three ways of `rmatch` at a level: "#", "+", and a level that is looked up.
unfoldable pub rmatch_level :
    (Rnode → List PublishPacket → Outcome (List PublishPacket))
    → Bytes
    → Rnode
    → List PublishPacket
    → Outcome (List PublishPacket)
rmatch_level next level (node m ks) msgs =
    ite (Bytes-discrete level mwc) (all_retained (node m ks) msgs, none)
      (ite (Bytes-discrete level swc) (rmatch_nodes next ks msgs)
        (elim (find level ks) [ none ↦ (msgs, none) | some n ↦ next n msgs ]))

unfoldable pub rmatch : ℕ → Bytes → Rnode → List PublishPacket → Outcome (List PublishPacket)
rmatch zero topic n msgs = (msgs, some out_of_fuel)
rmatch (suc f) [] (node m ks) msgs = (append_msg m msgs, none)
rmatch (suc f) (c ∷ topic) (node m ks) msgs = elim (next_topic_level (c ∷ topic)) [
  | err e ↦ (msgs, some e)
  | ok (level, rem) ↦ rmatch_level (rmatch f rem) level (node m ks) msgs
]
