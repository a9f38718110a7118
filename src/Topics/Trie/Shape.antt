-- ===== src/Topics/Trie/Shape.antt =====
-- The well-formedness of a tree: no key stands twice in a map, and every payload has a property.
use thoth.Base.{◌≡◌, refl, sym, ◌∙◌, none, some, Bytes, Bytes-discrete}
use thoth.Topics.Trie.{Node, Nodes, node, nil, cons, find, put, delete}
use thoth.Topics.Trie.Laws.{
  find_miss, found_hit, put_hit, put_miss, delete_hit, delete_miss, find-put_ne, find-delete-none,
}

module _ {ℓ} {A : Type ℓ} (P : A → Type ℓ) where
  abbrev mutual
    pub IsNode : Node A → Type ℓ
    IsNode (node p ks) = P p × IsNodes ks

    pub IsNodes : Nodes A → Type ℓ
    IsNodes nil = Unit
    IsNodes (cons k n ks) = (find k ks ≡ none) × IsNode n × IsNodes ks

  pub find-IsNode :
      (l : Bytes) (ks : Nodes A) {n : Node A} → IsNodes ks → find l ks ≡ some n → IsNode n
  find-IsNode l nil w f = unfold find in cc f
  find-IsNode l (cons k o ks) w f = elim (Bytes-discrete k l) [
    | yes p ↦ rw (found_hit ks f p) w.1
    | no p ↦ find-IsNode l ks w.2 (sym (find_miss o ks p) ∙ f)
  ]

  pub put-IsNodes :
      (l : Bytes) (m : Node A) (ks : Nodes A) → IsNodes ks → IsNode m → IsNodes (put l m ks)
  put-IsNodes l m nil w v = unfold put find in (refl, v, tt)
  put-IsNodes l m (cons k o ks) w v = elim (Bytes-discrete k l) [
    | yes p ↦ rw (put_hit m o ks p) (w.0, v, w.2)
    | no p ↦
        rw (put_miss m o ks p)
          (find-put_ne m ks (λ q. p (sym q)) ∙ w.0, w.1, put-IsNodes l m ks w.2 v)
  ]

  pub delete-IsNodes : (l : Bytes) (ks : Nodes A) → IsNodes ks → IsNodes (delete l ks)
  delete-IsNodes l nil w = unfold delete in tt
  delete-IsNodes l (cons k o ks) w = elim (Bytes-discrete k l) [
    | yes p ↦ rw (delete_hit o ks p) w.2
    | no p ↦ rw (delete_miss o ks p) (find-delete-none l k ks w.0, w.1, delete-IsNodes l ks w.2)
  ]

  pub find-delete_self : (l : Bytes) (ks : Nodes A) → IsNodes ks → find l (delete l ks) ≡ none
  find-delete_self l nil w = unfold find delete in refl
  find-delete_self l (cons k o ks) w = elim (Bytes-discrete k l) [
    | yes p ↦ rw (delete_hit o ks p) (rw (← p) w.0)
    | no p ↦ rw (delete_miss o ks p) (find_miss o (delete l ks) p ∙ find-delete_self l ks w.2)
  ]
