-- ===== src/Topics/Trie/Entries.antt =====
-- The items of a tree with the paths at which they stand: `items` lists those of one payload. The
-- order of `range` over a map is not specified, so laws about them are up to permutation.
use mathlib.Core.List.{Perm, perm_middle}
use mathlib.Core.List.Perm
use thoth.Base.{
  ◌≡◌, refl, sym, ap, subst, ◌∙◌, Bool, true, false, Option, none, some, List, [], ◌∷◌, ◌++◌, map,
  append-nil, Bytes, Bytes-discrete, if◌then◌else◌,
}
use thoth.Topics.Trie.{Node, Nodes, node, nil, cons, find, put, delete}
use thoth.Topics.Trie.Laws.{
  found_hit, find_hit, find_miss, put_hit, put_miss, delete_hit, delete_miss,
}

abbrev pub Entry {ℓ} : Type ℓ → Type ℓ
Entry V = List Bytes × V

module _ {ℓ} {V : Type ℓ} where
  abbrev pub under : Bytes → Entry V → Entry V
  under l e = (l ∷ e.0, e.1)

  abbrev pub here : V → Entry V
  here v = ([], v)

module _ {ℓ κ} {A : Type ℓ} {V : Type κ} (items : A → List V) where
  unfoldable mutual
    pub leaves : Node A → List (Entry V)
    leaves (node p ks) = map here (items p) ++ leaves_below ks

    pub leaves_below : Nodes A → List (Entry V)
    leaves_below nil = []
    leaves_below (cons k n ks) = map (under k) (leaves n) ++ leaves_below ks

  -- The items of the node under a key, if there is one.
  abbrev pub leaves_at : Option (Node A) → List (Entry V)
  leaves_at none = []
  leaves_at (some n) = leaves n

  -- One more entry below a key of the map.
  pub put-more :
      (l : Bytes) (m : Node A) (e : Entry V) (ks : Nodes A)
      → Perm (leaves m) (e ∷ leaves_at (find l ks))
      → Perm (leaves_below (put l m ks)) (under l e ∷ leaves_below ks)
  unfolding leaves
  put-more l m e nil h = unfold find put in rw append-nil (Perm.map (under l) h)
  put-more l m e (cons k n ks) h = elim (Bytes-discrete k l) [
    | yes p ↦
        rw (put_hit m n ks p, ← p)
          (Perm.append_right (leaves_below ks) (Perm.map (under k) (rw (find_hit n ks p) at h)))
    | no p ↦ rw (put_miss m n ks p) (
        Perm.trans
          (Perm.append_left (map (under k) (leaves n))
            (put-more l m e ks (rw (find_miss n ks p) at h)))
          (perm_middle _ _))
  ]

  -- The same leaves below a key of the map.
  pub put-same :
      (l : Bytes) (m n : Node A) (ks : Nodes A)
      → find l ks ≡ some n
      → leaves m ≡ leaves n
      → leaves_below (put l m ks) ≡ leaves_below ks
  unfolding leaves
  put-same l m n nil f h = unfold find in cc f
  put-same l m n (cons k o ks) f h = elim (Bytes-discrete k l) [
    | yes p ↦
        rw (put_hit m o ks p)
          (ap (λ es. map (under k) es ++ leaves_below ks) (h ∙ ap leaves (found_hit ks f p)))
    | no p ↦
        rw (put_miss m o ks p)
          (ap (◌++◌ (map (under k) (leaves o))) (put-same l m n ks (sym (find_miss o ks p) ∙ f) h))
  ]

  -- One entry less below a key of the map.
  put-less :
      (l : Bytes) (m n : Node A) (e : Entry V) (ks : Nodes A)
      → find l ks ≡ some n
      → Perm (leaves n) (e ∷ leaves m)
      → Perm (leaves_below ks) (under l e ∷ leaves_below (put l m ks))
  unfolding leaves
  put-less l m n e nil f h = unfold find in cc f
  put-less l m n e (cons k o ks) f h = elim (Bytes-discrete k l) [
    | yes p ↦
        rw (put_hit m o ks p, ← p)
          (Perm.append_right (leaves_below ks)
            (Perm.map (under k) (subst (λ x. Perm (leaves x) (e ∷ leaves m)) (found_hit ks f p) h)))
    | no p ↦ rw (put_miss m o ks p) (
        Perm.trans
          (Perm.append_left (map (under k) (leaves o))
            (put-less l m n e ks (sym (find_miss o ks p) ∙ f) h))
          (perm_middle _ _))
  ]

  -- A key whose node is empty can be deleted.
  delete-empty :
      (l : Bytes) (m n : Node A) (ks : Nodes A)
      → find l ks ≡ some n
      → leaves m ≡ []
      → leaves_below (delete l ks) ≡ leaves_below (put l m ks)
  unfolding leaves
  delete-empty l m n nil f h = unfold find in cc f
  delete-empty l m n (cons k o ks) f h = elim (Bytes-discrete k l) [
    | yes p ↦ rw (put_hit m o ks p, delete_hit o ks p, leaves_below) (rw h)
    | no p ↦
        rw (put_miss m o ks p, delete_miss o ks p)
          (ap (◌++◌ (map (under k) (leaves o)))
            (delete-empty l m n ks (sym (find_miss o ks p) ∙ f) h))
  ]

  -- A key whose node has no item left may be deleted.
  pub prune-less :
      (l : Bytes) (m n : Node A) (e : Entry V) (ks : Nodes A) (b : Bool)
      → find l ks ≡ some n
      → (b ≡ true → leaves m ≡ [])
      → Perm (leaves n) (e ∷ leaves m)
      → Perm (leaves_below ks) (under l e ∷ leaves_below (if b then delete l ks else put l m ks))
  prune-less l m n e ks true f g h = rw (delete-empty l m n ks f (g refl)) (put-less l m n e ks f h)
  prune-less l m n e ks false f g h = put-less l m n e ks f h
