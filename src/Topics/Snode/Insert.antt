-- ===== src/Topics/Snode/Insert.antt =====
-- What `sinsert` does to the entries of the tree.
use mathlib.Core.List.{Perm, perm_middle, map-append}
use mathlib.Core.List.Perm
use thoth.Base.{
  ℕ, ◌≡◌, ◌≢◌, refl, sym, ap, ◌∙◌, inl, inr, true, false, Option, none, some, List, [], ◌∷◌, ◌++◌,
  map, append_assoc, arith, Bytes, Option-cases,
}
use thoth.Topics.Trie.{Nodes, node, find}
use thoth.Topics.Trie.Laws.{find-put}
use thoth.Topics.Value.{Value, is_func, equal_self}
use thoth.Topics.Snode.Levels.{insert_at}
use thoth.Topics.Trie.Entries.{here, leaves, leaves_at, put-more, put-same}
use thoth.Topics.Snode.Entries.{entries, subs_of, holds}
use thoth.Topics.Levels.{of_path}
use thoth.Topics.Snode.{Subs, Snode, new_snode, find_or_new, index_of, insert_here}

-- A topic without an error is always inserted.
pub insert_at-none :
    (path : List Bytes) (qos : ℕ) (sub : Value) (n : Snode)
    → (insert_at (of_path path) qos sub n).1 ≡ none
unfolding insert_at
insert_at-none [] qos sub (node p ks) = refl
insert_at-none (l ∷ path) qos sub (node p ks) =
    insert_at-none path qos sub (find_or_new (find l ks))

pub not-holds-new : (path : List Bytes) (sub : Value) → holds path sub new_snode ≡ false
unfolding holds index_of find
not-holds-new [] sub = refl
not-holds-new (l ∷ path) sub = refl

pub holds-below :
    (l : Bytes) (path : List Bytes) (sub : Value) (p : Subs) (ks : Nodes Subs)
    → holds (l ∷ path) sub (node p ks) ≡ holds path sub (find_or_new (find l ks))
unfolding holds
holds-below l path sub p ks = elim (Option-cases (find l ks)) [
  | inl e ↦ rw (e, holds) (sym (not-holds-new path sub))
  | inr (n, e) ↦ rw (e, holds)
]

entries-find_or_new : (o : Option Snode) → entries (find_or_new o) ≡ leaves_at subs_of o
unfolding leaves
entries-find_or_new none = refl
entries-find_or_new (some n) = refl

insert_here-new :
    (qos : ℕ) (sub : Value) (p : Subs)
    → index_of sub p.subs ≡ none
    → (insert_here qos sub p).subs ≡ p.subs ++ sub ∷ []
unfolding insert_here
insert_here-new qos sub p h = rw (h, insert_here)

insert_here-old :
    (qos : ℕ) (sub : Value) (p : Subs) {i : ℕ}
    → index_of sub p.subs ≡ some i
    → (insert_here qos sub p).subs ≡ p.subs
unfolding insert_here
insert_here-old qos sub p h = rw (h, insert_here)

-- A subscriber that is not at the path becomes one entry more.
pub insert_at-entries_new :
    (path : List Bytes) (qos : ℕ) (sub : Value) (n : Snode)
    → holds path sub n ≡ false
    → Perm (entries (insert_at (of_path path) qos sub n).0) ((path, sub) ∷ entries n)
unfolding insert_at leaves
insert_at-entries_new [] qos sub (node p ks) h =
    rw (insert_here-new qos sub p (unfold holds in ground arith), map-append, append_assoc)
      (perm_middle (map here p.subs) _)
insert_at-entries_new (l ∷ path) qos sub (node p ks) h =
    Perm.trans
      (Perm.append_left (map here p.subs) (
        put-more subs_of l _ (path, sub) ks
          (rw (entries-find_or_new (find l ks)) at (
            insert_at-entries_new path qos sub (find_or_new (find l ks))
              (sym (holds-below l path sub p ks) ∙ h)))))
      (perm_middle (map here p.subs) _)

-- A subscriber that is at the path leaves the entries as they are.
pub insert_at-entries_old :
    (path : List Bytes) (qos : ℕ) (sub : Value) (n : Snode)
    → holds path sub n ≡ true
    → entries (insert_at (of_path path) qos sub n).0 ≡ entries n
unfolding insert_at leaves
insert_at-entries_old [] qos sub (node p ks) h = elim (Option-cases (index_of sub p.subs)) [
  | inl e ↦ unfold holds in ground arith
  | inr (i, e) ↦ rw (insert_here-old qos sub p e)
]
insert_at-entries_old (l ∷ path) qos sub (node p ks) h = elim (Option-cases (find l ks)) [
  | inl e ↦ unfold holds in ground arith
  | inr (m, e) ↦ rw e (
      ap (◌++◌ (map here p.subs)) (
        put-same subs_of l _ m ks e
          (insert_at-entries_old path qos sub m (unfold holds in ground arith))))
]

index_of-append :
    (sub : Value) (ss : List Value) → is_func sub ≡ false → index_of sub (ss ++ sub ∷ []) ≢ none
unfolding index_of
index_of-append sub [] h = ground (arith, equal_self sub h)
index_of-append sub (s ∷ ss) h = ground (arith, index_of-append sub ss h)

-- After an insertion the subscriber is at the path.
pub holds-insert_at :
    (path : List Bytes) (qos : ℕ) (sub : Value) (n : Snode)
    → is_func sub ≡ false
    → holds path sub (insert_at (of_path path) qos sub n).0 ≡ true
unfolding insert_at holds
holds-insert_at [] qos sub (node p ks) h = elim (Option-cases (index_of sub p.subs)) [
  | inl e ↦ ground (arith, insert_here-new qos sub p e, index_of-append sub p.subs h)
  | inr (i, e) ↦ ground (arith, insert_here-old qos sub p e)
]
holds-insert_at (l ∷ path) qos sub (node p ks) h = ground (
  arith,
  find-put l l (insert_at (of_path path) qos sub (find_or_new (find l ks))).0 ks,
  holds-insert_at path qos sub (find_or_new (find l ks)) h,
)
