-- ===== src/Topics/Trie.antt =====
-- The tree under both `snode` and `rnode` of broker/persistence/topics/memtopics.go: a node has a
-- payload (the fields `subs` and `qos`, or `msg`) and a map from levels to the nodes below. The
-- map is an association list; the order of its entries stands for the order of a `range` loop.
pub mod Laws
pub mod Entries
pub mod Shape
use thoth.Base.{Bool, true, false, Option, none, some, ite, Bytes, Bytes-discrete}

mutual
  pub data Node {ℓ} (A : Type ℓ) : Type ℓ where
    node : A → Nodes A → Node A

  pub data Nodes {ℓ} (A : Type ℓ) : Type ℓ where
    nil : Nodes A
    cons : Bytes → Node A → Nodes A → Nodes A

module _ {ℓ} {A : Type ℓ} where
  abbrev pub payload : Node A → A
  payload (node a ks) = a

  abbrev pub nodes : Node A → Nodes A
  nodes (node a ks) = ks

  -- `len(nodes) == 0`
  abbrev pub no_nodes : Nodes A → Bool
  no_nodes nil = true
  no_nodes (cons l n ks) = false

  -- `n, ok := nodes[level]`
  unfoldable pub find : Bytes → Nodes A → Option (Node A)
  find l nil = none
  find l (cons k n ks) = ite (Bytes-discrete k l) (some n) (find l ks)

  -- `nodes[level] = n`; a new key goes to the end
  unfoldable pub put : Bytes → Node A → Nodes A → Nodes A
  put l m nil = cons l m nil
  put l m (cons k n ks) = ite (Bytes-discrete k l) (cons k m ks) (cons k n (put l m ks))

  -- `delete(nodes, level)`
  unfoldable pub delete : Bytes → Nodes A → Nodes A
  delete l nil = nil
  delete l (cons k n ks) = ite (Bytes-discrete k l) ks (cons k n (delete l ks))
