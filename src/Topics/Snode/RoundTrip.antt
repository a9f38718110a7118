-- ===== src/Topics/Snode/RoundTrip.antt =====
-- `sremove` after `sinsert` of a new subscriber gives the tree back.
use thoth.Base.{
  ℕ, ◌≡◌, ◌≢◌, refl, sym, ap, ap₂, ◌∙◌, inl, inr, false, none, some, List, [], ◌∷◌, ◌++◌, arith,
  Bytes, Option-cases, length,
}
use thoth.Topics.Trie.{Nodes, node, find, put}
use thoth.Topics.Trie.Laws.{find-put_self, put-find, put-put, delete-put_new}
use thoth.Topics.Value.{Value, is_func, equal_self}
use thoth.Topics.Snode.Levels.{insert_at, remove_from}
use thoth.Topics.Snode.Entries.{holds}
use thoth.Topics.Snode.Insert.{holds-below}
use thoth.Topics.Snode.Remove.{remove_here-some}
use thoth.Topics.Snode.Shape.{IsSnode, IsBalanced, find_or_new-IsSnode}
use thoth.Topics.Snode.Pruned.{IsPruned, find-IsPruned, find_or_new-IsPruned}
use thoth.Topics.Levels.{of_path}
use thoth.Topics.Snode.{
  Subs, Snode, no_subs, find_or_new, index_of, insert_here, remove_at, remove_here, removed_below,
  prune,
}

index_of-append_new :
    (sub : Value) (ss : List Value)
    → is_func sub ≡ false
    → index_of sub ss ≡ none
    → index_of sub (ss ++ sub ∷ []) ≡ some (length ss)
unfolding index_of
index_of-append_new sub [] f h = rw (equal_self sub f)
index_of-append_new sub (s ∷ ss) f h = ground (arith, index_of-append_new sub ss f)

remove_at-append {ℓ} :
    {A : Type ℓ} (xs : List A) (a : A) (n : ℕ) → n ≡ length xs → remove_at n (xs ++ a ∷ []) ≡ xs
remove_at-append [] a n h = rw h
remove_at-append (x ∷ xs) a n h = rw h (ap (◌∷◌ x) (remove_at-append xs a (length xs) refl))

remove_here-insert_here :
    (qos : ℕ) (sub : Value) (p : Subs)
    → IsBalanced p
    → is_func sub ≡ false
    → sub ≢ Value.nil
    → index_of sub p.subs ≡ none
    → remove_here sub (insert_here qos sub p) ≡ (p, none)
unfolding insert_here
remove_here-insert_here qos sub p w f c h =
    rw (h, insert_here)
      (remove_here-some sub _ c (index_of-append_new sub p.subs f h)
        ∙ ap₂ (λ s q. (record { subs = s; qos = q }, none))
            (remove_at-append p.subs sub (length p.subs) refl)
            (remove_at-append p.qos qos (length p.subs) (sym w)))

-- Writing back the node that was under a key, or none.
prune-back :
    (l : Bytes) (m : Snode) (ks : Nodes Subs)
    → IsPruned (node no_subs ks)
    → prune l (find_or_new (find l ks)) (put l m ks) ≡ ks
prune-back l m ks v = elim (Option-cases (find l ks)) [
  | inl e ↦ rw e (delete-put_new l m ks e)
  | inr (n, e) ↦ rw (e, (find-IsPruned l ks v e).0) (put-put l n m ks ∙ put-find l n ks e)
]

-- In a well-formed tree with no empty node below the root, removing a subscriber that was not
-- there before its insertion is no error and gives the tree back as it was.
pub remove_from-insert_at :
    (path : List Bytes) (qos : ℕ) (sub : Value) (n : Snode)
    → IsSnode n
    → IsPruned n
    → is_func sub ≡ false
    → sub ≢ Value.nil
    → holds path sub n ≡ false
    → remove_from (of_path path) sub (insert_at (of_path path) qos sub n).0 ≡ (n, none)
unfolding remove_from insert_at
remove_from-insert_at [] qos sub (node p ks) w v f c h =
    ap (λ o. (node o.0 ks, o.1))
      (remove_here-insert_here qos sub p w.0 f c (unfold holds in ground arith))
remove_from-insert_at (l ∷ path) qos sub (node p ks) w v f c h =
    let below = find_or_new (find l ks) in
    let m = (insert_at (of_path path) qos sub below).0 in
    let back =
      remove_from-insert_at path qos sub below (find_or_new-IsSnode l ks w.1)
        (find_or_new-IsPruned l ks v) f c (sym (holds-below l path sub p ks) ∙ h) in
    rw (find-put_self l m ks, remove_from)
      (ap (removed_below l p (put l m ks)) back
        ∙ ap (λ js. (node p js, none)) (prune-back l m ks v))
