-- ===== src/Topics/Rnode/Shape.antt =====
-- The tree of retained messages stays well-formed.
use thoth.Base.{inl, inr, none, some, Bytes, Option-cases, Bool-cases}
use thoth.Packets.{PublishPacket}
use thoth.Topics.Levels.{Levels, done, bad, level}
use thoth.Topics.Trie.{Nodes, node, nodes, no_nodes, find}
use thoth.Topics.Trie.Shape.{IsNodes, find-IsNode, put-IsNodes, delete-IsNodes}
use thoth.Topics.Rnode.Levels.{insert_at, remove_from}
use thoth.Topics.Rnode.Lookup.{AnyMsg, IsRnode}
use thoth.Topics.Rnode.{Msg, Rnode, Outcome, new_rnode, find_or_new, removed_below}

pub new_rnode-IsRnode : IsRnode new_rnode
new_rnode-IsRnode = (tt, tt)

find_or_new-IsRnode :
    (l : Bytes) (ks : Nodes Msg) → IsNodes AnyMsg ks → IsRnode (find_or_new (find l ks))
find_or_new-IsRnode l ks w = elim (Option-cases (find l ks)) [
  | inl e ↦ rw e new_rnode-IsRnode
  | inr (n, e) ↦ rw e (find-IsNode AnyMsg l ks w e)
]

pub insert_at-IsRnode :
    (path : Levels) (msg : PublishPacket) (n : Rnode) → IsRnode n → IsRnode (insert_at path msg n).0
unfolding insert_at
insert_at-IsRnode done msg (node m ks) w = w
insert_at-IsRnode (bad e) msg (node m ks) w = w
insert_at-IsRnode (level l path) msg (node m ks) w = (
  tt,
  put-IsNodes AnyMsg l _ ks w.1
      (insert_at-IsRnode path msg (find_or_new (find l ks)) (find_or_new-IsRnode l ks w.1)),
)

removed_below-IsRnode :
    (l : Bytes) (m : Msg) (ks : Nodes Msg) (o : Outcome Rnode)
    → IsRnode (node m ks)
    → IsRnode o.0
    → IsRnode (removed_below l m ks o).0
removed_below-IsRnode l m ks (n, some e) w v = (tt, put-IsNodes AnyMsg l n ks w.1 v)
removed_below-IsRnode l m ks (n, none) w v = elim (Bool-cases (no_nodes (nodes n))) [
  | inl b ↦ rw b (tt, delete-IsNodes AnyMsg l ks w.1)
  | inr b ↦ rw b (tt, put-IsNodes AnyMsg l n ks w.1 v)
]

pub remove_from-IsRnode : (path : Levels) (n : Rnode) → IsRnode n → IsRnode (remove_from path n).0
unfolding remove_from
remove_from-IsRnode done (node m ks) w = w
remove_from-IsRnode (bad e) (node m ks) w = w
remove_from-IsRnode (level l path) (node m ks) w = elim (Option-cases (find l ks)) [
  | inl e ↦ rw (e, remove_from) w
  | inr (n, e) ↦
      rw (e, remove_from)
        (removed_below-IsRnode l m ks _ w
          (remove_from-IsRnode path n (find-IsNode AnyMsg l ks w.1 e)))
]
