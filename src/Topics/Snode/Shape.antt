-- ===== src/Topics/Snode/Shape.antt =====
-- The well-formedness of a subscription tree: one QoS for each subscriber, no key twice. A new
-- tree has it, and every insertion and removal keeps it, whether it returns an error or not.
use thoth.Base.{
  ℕ, zero, suc, ◌≡◌, refl, ◌∙◌, inl, inr, none, some, List, [], ◌∷◌, arith, Bytes, length,
  length-append, length-set, Option-cases, Bool-cases,
}
use thoth.Topics.Trie.{Nodes, node, find}
use thoth.Topics.Trie.Shape.{IsNode, IsNodes, find-IsNode, put-IsNodes, delete-IsNodes}
use thoth.Topics.Value.{Value}
use thoth.Topics.Snode.Levels.{insert_at, remove_from}
use thoth.Topics.Levels.{Levels, done, bad, level}
use thoth.Topics.Snode.{
  Subs, Snode, Outcome, no_subs, new_snode, find_or_new, index_of, insert_here, remove_at,
  remove_here, removed_below, is_empty,
}

-- A property of the subscribers of every node is kept by an operation that keeps it at one node.
module _ (P : Subs → Type 0) (empty : P no_subs) where
  pub find_or_new-IsNode :
      (l : Bytes) (ks : Nodes Subs) → IsNodes P ks → IsNode P (find_or_new (find l ks))
  find_or_new-IsNode l ks w = elim (Option-cases (find l ks)) [
    | inl e ↦ rw e (empty, tt)
    | inr (n, e) ↦ rw e (find-IsNode P l ks w e)
  ]

  pub insert_at-IsNode :
      (path : Levels) (qos : ℕ) (sub : Value) (n : Snode)
      → ((p : Subs) → P p → P (insert_here qos sub p))
      → IsNode P n
      → IsNode P (insert_at path qos sub n).0
  unfolding insert_at
  insert_at-IsNode done qos sub (node p ks) keeps w = (keeps p w.0, w.1)
  insert_at-IsNode (bad e) qos sub (node p ks) keeps w = w
  insert_at-IsNode (level l path) qos sub (node p ks) keeps w = (
    w.0,
    put-IsNodes P l _ ks w.1 (
        insert_at-IsNode path qos sub (find_or_new (find l ks)) keeps
          (find_or_new-IsNode l ks w.1)),
  )

  removed_below-IsNode :
      (l : Bytes) (p : Subs) (ks : Nodes Subs) (o : Outcome Snode)
      → IsNode P (node p ks)
      → IsNode P o.0
      → IsNode P (removed_below l p ks o).0
  removed_below-IsNode l p ks (n, some e) w v = (w.0, put-IsNodes P l n ks w.1 v)
  removed_below-IsNode l p ks (n, none) w v = elim (Bool-cases (is_empty n)) [
    | inl b ↦ rw b (w.0, delete-IsNodes P l ks w.1)
    | inr b ↦ rw b (w.0, put-IsNodes P l n ks w.1 v)
  ]

  pub remove_from-IsNode :
      (path : Levels) (sub : Value) (n : Snode)
      → ((p : Subs) → P p → P (remove_here sub p).0)
      → IsNode P n
      → IsNode P (remove_from path sub n).0
  unfolding remove_from
  remove_from-IsNode done sub (node p ks) keeps w = (keeps p w.0, w.1)
  remove_from-IsNode (bad e) sub (node p ks) keeps w = w
  remove_from-IsNode (level l path) sub (node p ks) keeps w = elim (Option-cases (find l ks)) [
    | inl e ↦ rw (e, remove_from) w
    | inr (n, e) ↦
        rw (e, remove_from)
          (removed_below-IsNode l p ks _ w
            (remove_from-IsNode path sub n keeps (find-IsNode P l ks w.1 e)))
  ]

abbrev pub IsBalanced : Subs → Type 0
IsBalanced p = length p.qos ≡ length p.subs

abbrev pub IsSnode : Snode → Type 0
IsSnode = IsNode IsBalanced

abbrev pub IsSnodes : Nodes Subs → Type 0
IsSnodes = IsNodes IsBalanced

pub new_snode-IsSnode : IsSnode new_snode
new_snode-IsSnode = (refl, tt)

insert_here-IsBalanced :
    (qos : ℕ) (sub : Value) (p : Subs) → IsBalanced p → IsBalanced (insert_here qos sub p)
unfolding insert_here
insert_here-IsBalanced qos sub p h = elim (Option-cases (index_of sub p.subs)) [
  | inl e ↦
      rw (e, insert_here)
        (omega (arith, length-append p.qos (qos ∷ []), length-append p.subs (sub ∷ [])))
  | inr (i, e) ↦ rw (e, insert_here) (length-set p.qos i qos ∙ h)
]

length-remove_at {ℓ κ} :
    {A : Type ℓ} {B : Type κ} (i : ℕ) (xs : List A) (ys : List B)
    → length xs ≡ length ys
    → length (remove_at i xs) ≡ length (remove_at i ys)
length-remove_at zero [] [] h = refl
length-remove_at zero [] (y ∷ ys) h = omega arith
length-remove_at zero (x ∷ xs) [] h = omega arith
length-remove_at zero (x ∷ xs) (y ∷ ys) h = omega arith
length-remove_at (suc i) [] [] h = refl
length-remove_at (suc i) [] (y ∷ ys) h = absurd (omega arith)
length-remove_at (suc i) (x ∷ xs) [] h = absurd (omega arith)
length-remove_at (suc i) (x ∷ xs) (y ∷ ys) h = omega (arith, length-remove_at i xs ys (omega arith))

remove_found-IsBalanced : (sub : Value) (p : Subs) → IsBalanced p → IsBalanced (remove_here sub p).0
unfolding remove_here
remove_found-IsBalanced Value.nil p h = refl
remove_found-IsBalanced sub p h = elim (Option-cases (index_of sub p.subs)) [
  | inl e ↦ rw (e, remove_here) h
  | inr (i, e) ↦ rw (e, remove_here) (length-remove_at i p.qos p.subs h)
]

pub insert_at-IsSnode :
    (path : Levels) (qos : ℕ) (sub : Value) (n : Snode)
    → IsSnode n
    → IsSnode (insert_at path qos sub n).0
insert_at-IsSnode path qos sub n =
    insert_at-IsNode IsBalanced refl path qos sub n (insert_here-IsBalanced qos sub)

pub remove_from-IsSnode :
    (path : Levels) (sub : Value) (n : Snode) → IsSnode n → IsSnode (remove_from path sub n).0
remove_from-IsSnode path sub n =
    remove_from-IsNode IsBalanced refl path sub n (remove_found-IsBalanced sub)

pub find_or_new-IsSnode :
    (l : Bytes) (ks : Nodes Subs) → IsSnodes ks → IsSnode (find_or_new (find l ks))
find_or_new-IsSnode = find_or_new-IsNode IsBalanced refl
