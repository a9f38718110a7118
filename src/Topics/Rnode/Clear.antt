-- ===== src/Topics/Rnode/Clear.antt =====
-- What `rremove` does to the retained messages.
use thoth.Base.{
  ◌≡◌, ◌≢◌, refl, sym, ap, subst, ◌∙◌, inl, inr, Bool, true, false, none, some, List, [], ◌∷◌,
  arith, Bytes, Bytes-discrete, ite, Option-cases, Bool-cases,
}
use thoth.Topics.Levels.{of_path}
use thoth.Topics.Trie.{Nodes, node, nil, cons, nodes, no_nodes, find, put, delete}
use thoth.Topics.Trie.Laws.{find-put_self, find-put_ne, find-delete_ne}
use thoth.Topics.Trie.Shape.{find-IsNode, find-delete_self}
use thoth.Topics.Rnode.Levels.{remove_from}
use thoth.Topics.Rnode.Lookup.{AnyMsg, IsRnode, retained_at, retained-below, not-retained-new}
use thoth.Topics.Rnode.{Msg, Rnode, Outcome, find_or_new, prune, removed_below}

-- Whether the first path leads to the second or to a node above it.
abbrev pub is_prefix : List Bytes → List Bytes → Bool
is_prefix [] path = true
is_prefix (k ∷ other) [] = false
is_prefix (k ∷ other) (l ∷ path) = ite (Bytes-discrete k l) (is_prefix other path) false

-- After a removal no message is retained at its topic, also where it returns an error.
pub retained-remove_from_self :
    (path : List Bytes) (n : Rnode)
    → IsRnode n
    → retained_at path (remove_from (of_path path) n).0 ≡ none
unfolding remove_from
retained-remove_from_self [] (node m ks) w = unfold retained_at in refl
retained-remove_from_self (l ∷ path) (node m ks) w = elim (Option-cases (find l ks)) [
  | inl e ↦ rw (e, remove_from) (retained-below l path m ks ∙ rw e (not-retained-new path))
  | inr (n, e) ↦
      rw (e, remove_from)
        (below (remove_from (of_path path) n)
          (retained-remove_from_self path n (find-IsNode AnyMsg l ks w.1 e)))
]
  where
    below :
        (o : Outcome Rnode)
        → retained_at path o.0 ≡ none
        → retained_at (l ∷ path) (removed_below l m ks o).0 ≡ none
    below (n, some x) h = retained-below l path m (put l n ks) ∙ rw (find-put_self l n ks) h
    below (n, none) h = elim (Bool-cases (no_nodes (nodes n))) [
      | inl b ↦ rw b (
          retained-below l path m (delete l ks)
          ∙ rw (find-delete_self AnyMsg l ks w.1) (not-retained-new path))
      | inr b ↦ rw b (retained-below l path m (put l n ks) ∙ rw (find-put_self l n ks) h)
    ]

-- A node with no node below it retains nothing but its own message.
not-retained-leaf :
    (k : Bytes) (path : List Bytes) (n : Rnode)
    → no_nodes (nodes n) ≡ true
    → retained_at (k ∷ path) n ≡ none
unfolding retained_at find
not-retained-leaf k path (node m nil) b = refl
not-retained-leaf k path (node m (cons j n ks)) b = cc

find-prune_ne :
    (l k : Bytes) (n : Rnode) (ks : Nodes Msg) → l ≢ k → find k (prune l n ks) ≡ find k ks
find-prune_ne l k n ks h = elim (Bool-cases (no_nodes (nodes n))) [
  | inl b ↦ rw b (find-delete_ne ks h)
  | inr b ↦ rw b (find-put_ne n ks h)
]

-- A message below a key is the same if the map has the same node there.
retained-same :
    (k : Bytes) (path : List Bytes) (m : Msg) (ks js : Nodes Msg)
    → find k ks ≡ find k js
    → retained_at (k ∷ path) (node m ks) ≡ retained_at (k ∷ path) (node m js)
retained-same k path m ks js h =
    retained-below k path m ks
    ∙ ap (λ o. retained_at path (find_or_new o)) h
    ∙ sym (retained-below k path m js)

retained-past :
    (l k : Bytes) (path : List Bytes) (m : Msg) (ks : Nodes Msg) (o : Outcome Rnode)
    → l ≢ k
    → retained_at (k ∷ path) (removed_below l m ks o).0 ≡ retained_at (k ∷ path) (node m ks)
retained-past l k path m ks (n, some x) h = retained-same k path m _ ks (find-put_ne n ks h)
retained-past l k path m ks (n, none) h = retained-same k path m _ ks (find-prune_ne l k n ks h)

-- The node under the key changes to one with the same message.
retained-under :
    (l : Bytes) (path : List Bytes) (m : Msg) (ks : Nodes Msg) (o : Outcome Rnode) {n : Rnode}
    → IsRnode (node m ks)
    → find l ks ≡ some n
    → path ≢ []
    → retained_at path o.0 ≡ retained_at path n
    → retained_at (l ∷ path) (removed_below l m ks o).0 ≡ retained_at (l ∷ path) (node m ks)
retained-under l [] m ks o w f c h = absurd (c refl)
retained-under l (j ∷ path) m ks (n, some x) w f c h =
    retained-below l (j ∷ path) m (put l n ks)
    ∙ rw (find-put_self l n ks) (h ∙ rw (retained-below l (j ∷ path) m ks, f))
retained-under l (j ∷ path) m ks (n, none) w f c h = elim (Bool-cases (no_nodes (nodes n))) [
  | inl b ↦ rw b (
      retained-below l (j ∷ path) m (delete l ks)
      ∙ rw (find-delete_self AnyMsg l ks w.1) (
          not-retained-new (j ∷ path)
          ∙ sym (not-retained-leaf j path n b)
          ∙ h
          ∙ rw (retained-below l (j ∷ path) m ks, f)))
  | inr b ↦ rw b (
      retained-below l (j ∷ path) m (put l n ks)
      ∙ rw (find-put_self l n ks) (h ∙ rw (retained-below l (j ∷ path) m ks, f)))
]

-- A removal leaves the messages of all topics but its own and those on the way to it.
pub retained-remove_from_ne :
    (path other : List Bytes) (n : Rnode)
    → IsRnode n
    → is_prefix other path ≡ false
    → retained_at other (remove_from (of_path path) n).0 ≡ retained_at other n
unfolding remove_from
retained-remove_from_ne path [] n w h = cc
retained-remove_from_ne [] (k ∷ other) (node m ks) w h = unfold retained_at in refl
retained-remove_from_ne (l ∷ path) (k ∷ other) (node m ks) w h = elim (Option-cases (find l ks)) [
  | inl e ↦ rw (e, remove_from)
  | inr (n, e) ↦
      rw (e, remove_from)
        (elim (Bytes-discrete k l) [
          | yes p ↦
              subst
                (λ j.
                  retained_at (j ∷ other) (removed_below l m ks (remove_from (of_path path) n)).0
                  ≡ retained_at (j ∷ other) (node m ks))
                (sym p)
                (retained-under l other m ks (remove_from (of_path path) n) w e
                  (not-nil other (shorter p))
                  (retained-remove_from_ne path other n (find-IsNode AnyMsg l ks w.1 e)
                    (shorter p)))
          | no p ↦ retained-past l k other m ks (remove_from (of_path path) n) (λ q. p (sym q))
        ])
]
  where
    shorter : k ≡ l → is_prefix other path ≡ false
    shorter p = ground arith

    not-nil : (js : List Bytes) → is_prefix js path ≡ false → js ≢ []
    not-nil [] g q = cc
    not-nil (j ∷ js) g q = cc
