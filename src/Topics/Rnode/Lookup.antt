-- ===== src/Topics/Rnode/Lookup.antt =====
-- The retained message at a path, and what `rinsertOrUpdate` and `rremove` do to it.
use thoth.Base.{
  ◌≡◌, ◌≢◌, refl, sym, ap, ap₂, subst, ◌∙◌, inl, inr, none, some, List, [], ◌∷◌, arith, Bytes,
  Bytes-discrete, Option-cases,
}
use thoth.Packets.{PublishPacket}
use thoth.Topics.Levels.{of_path}
use thoth.Topics.Trie.{Nodes, node, find, put}
use thoth.Topics.Trie.Laws.{find-put, find-put_self}
use thoth.Topics.Trie.Shape.{IsNode}
use thoth.Topics.Rnode.Levels.{insert_at}
use thoth.Topics.Rnode.{Msg, Rnode, new_rnode, find_or_new}

abbrev pub AnyMsg : Msg → Type 0
AnyMsg m = Unit

-- No key twice.
abbrev pub IsRnode : Rnode → Type 0
IsRnode = IsNode AnyMsg

unfoldable pub retained_at : List Bytes → Rnode → Msg
retained_at [] (node m ks) = m
retained_at (l ∷ path) (node m ks) = elim (find l ks) [ none ↦ none | some n ↦ retained_at path n ]

pub insert_at-none :
    (path : List Bytes) (msg : PublishPacket) (n : Rnode)
    → (insert_at (of_path path) msg n).1 ≡ none
unfolding insert_at
insert_at-none [] msg (node m ks) = refl
insert_at-none (l ∷ path) msg (node m ks) = insert_at-none path msg (find_or_new (find l ks))

pub not-retained-new : (path : List Bytes) → retained_at path new_rnode ≡ none
unfolding retained_at find
not-retained-new [] = refl
not-retained-new (l ∷ path) = refl

pub retained-below :
    (l : Bytes) (path : List Bytes) (m : Msg) (ks : Nodes Msg)
    → retained_at (l ∷ path) (node m ks) ≡ retained_at path (find_or_new (find l ks))
unfolding retained_at
retained-below l path m ks = elim (Option-cases (find l ks)) [
  | inl e ↦ rw (e, retained_at) (sym (not-retained-new path))
  | inr (n, e) ↦ rw (e, retained_at)
]

-- A retained message replaces that of its own topic, and no other.
pub retained-insert_at_self :
    (path : List Bytes) (msg : PublishPacket) (n : Rnode)
    → retained_at path (insert_at (of_path path) msg n).0 ≡ some msg
unfolding insert_at retained_at
retained-insert_at_self [] msg (node m ks) = refl
retained-insert_at_self (l ∷ path) msg (node m ks) = ground (
  arith,
  find-put l l (insert_at (of_path path) msg (find_or_new (find l ks))).0 ks,
  retained-insert_at_self path msg (find_or_new (find l ks)),
)

pub retained-insert_at_ne :
    (path other : List Bytes) (msg : PublishPacket) (n : Rnode)
    → path ≢ other
    → retained_at other (insert_at (of_path path) msg n).0 ≡ retained_at other n
unfolding insert_at
retained-insert_at_ne [] [] msg (node m ks) h = absurd (h refl)
retained-insert_at_ne [] (k ∷ other) msg (node m ks) h = unfold retained_at in refl
retained-insert_at_ne (l ∷ path) [] msg (node m ks) h = unfold retained_at in refl
retained-insert_at_ne (l ∷ path) (k ∷ other) msg (node m ks) h = elim (Bytes-discrete l k) [
  | yes p ↦
      let n = (insert_at (of_path path) msg (find_or_new (find l ks))).0 in
      subst
        (λ j. retained_at (j ∷ other) (node m (put l n ks)) ≡ retained_at (j ∷ other) (node m ks)) p
        (retained-below l other m (put l n ks)
          ∙ ap (λ o. retained_at other (find_or_new o)) (find-put_self l n ks)
          ∙ retained-insert_at_ne path other msg (find_or_new (find l ks)) (λ q. h (ap₂ ◌∷◌ p q))
          ∙ sym (retained-below l other m ks))
  | no p ↦
      unfold retained_at in
      ground (arith, find-put l k (insert_at (of_path path) msg (find_or_new (find l ks))).0 ks)
]
