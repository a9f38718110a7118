-- ===== src/Topics/Snode/Remove.antt =====
-- What `sremove` does to the entries of the tree.
use mathlib.Core.List.{Perm, perm_middle}
use mathlib.Core.List.Perm
use thoth.Base.{
  ℕ, suc, ◌≡◌, ◌≢◌, refl, ap, inl, inr, Bool, true, false, none, some, List, [], ◌∷◌, map, arith,
  Bytes, Option-cases, Bool-cases,
}
use thoth.Topics.Level.{no_topic_for_subscriber}
use thoth.Topics.Trie.{Nodes, node, find}
use thoth.Topics.Trie.Laws.{put-find}
use thoth.Topics.Value.{Value, nil, equal, equal_iff}
use thoth.Topics.Snode.Levels.{remove_from}
use thoth.Topics.Trie.Entries.{here, leaves}
use thoth.Topics.Snode.Entries.{entries, entries_below, holds, prune-entries}
use thoth.Topics.Levels.{Levels, done, bad, level, of_path}
use thoth.Topics.Snode.{
  Subs, Snode, Outcome, index_of, remove_at, remove_here, removed_below, prune,
}

-- The first match of `equal` is the subscriber itself.
index_of-perm :
    (sub : Value) (ss : List Value) {i : ℕ}
    → index_of sub ss ≡ some i
    → Perm ss (sub ∷ remove_at i ss)
unfolding index_of
index_of-perm sub [] h = cc
index_of-perm sub (s ∷ ss) {i} h = elim (Bool-cases (equal s sub)) [
  | inl b ↦
      let first : i ≡ 0 = ground arith in rw first (Perm.cons' ((equal_iff s sub).0 b).0 Perm.rfl)
  | inr b ↦ elim (Option-cases (index_of sub ss)) [
    | inl e ↦ ground arith
    | inr (j, e) ↦
        let later : i ≡ suc j = ground arith in
        rw later (Perm.trans (Perm.cons s (index_of-perm sub ss e)) (Perm.swap sub s _))
  ]
]

pub remove_here-some :
    (sub : Value) (p : Subs) {i : ℕ}
    → sub ≢ nil
    → index_of sub p.subs ≡ some i
    → remove_here sub p ≡ (record { subs = remove_at i p.subs; qos = remove_at i p.qos }, none)
unfolding remove_here
remove_here-some nil p n h = absurd (n refl)
remove_here-some _ p n h = rw (h, remove_here)

remove_here-none :
    (sub : Value) (p : Subs)
    → sub ≢ nil
    → index_of sub p.subs ≡ none
    → remove_here sub p ≡ (p, some no_topic_for_subscriber)
unfolding remove_here
remove_here-none nil p n h = absurd (n refl)
remove_here-none _ p n h = rw (h, remove_here)

pub removed_below-none :
    (l : Bytes) (p : Subs) (ks : Nodes Subs) (o : Outcome Snode)
    → o.1 ≡ none
    → removed_below l p ks o ≡ (node p (prune l o.0 ks), none)
removed_below-none l p ks (n, none) h = refl
removed_below-none l p ks (n, some e) h = cc

removed_below-some :
    (l : Bytes) (p : Subs) (ks : Nodes Subs) (o : Outcome Snode) {n : Snode}
    → find l ks ≡ some n
    → o.0 ≡ n
    → o.1 ≢ none
    → ((removed_below l p ks o).0 ≡ node p ks) × ((removed_below l p ks o).1 ≢ none)
removed_below-some l p ks (m, none) f h r = absurd (r refl)
removed_below-some l p ks (m, some e) f h r = (ap (node p) (rw h (put-find l _ ks f)), λ q. cc)

holds-found :
    (l : Bytes) (path : List Bytes) (sub : Value) (p : Subs) (ks : Nodes Subs) {n : Snode}
    {b : Bool}
    → find l ks ≡ some n
    → holds (l ∷ path) sub (node p ks) ≡ b
    → holds path sub n ≡ b
unfolding holds
holds-found l path sub p ks f h = ground arith

-- Removing a subscriber that is at the path takes away its entry, and is no error.
pub remove_from-entries :
    (path : List Bytes) (sub : Value) (n : Snode)
    → sub ≢ nil
    → holds path sub n ≡ true
    → ((remove_from (of_path path) sub n).1 ≡ none)
      × Perm (entries n) ((path, sub) ∷ entries (remove_from (of_path path) sub n).0)
unfolding remove_from leaves
remove_from-entries [] sub (node p ks) c h = elim (Option-cases (index_of sub p.subs)) [
  | inl e ↦ unfold holds in ground arith
  | inr (i, e) ↦
      rw (remove_here-some sub p c e)
        (refl, Perm.append_right (entries_below ks) (Perm.map here (index_of-perm sub p.subs e)))
]
remove_from-entries (l ∷ path) sub (node p ks) c h = elim (Option-cases (find l ks)) [
  | inl e ↦ unfold holds in ground arith
  | inr (n, e) ↦
      let below = remove_from-entries path sub n c (holds-found l path sub p ks e h) in
      rw (e, remove_from, removed_below-none l p ks (remove_from (of_path path) sub n) below.0)
        (
          refl,
          Perm.trans
              (Perm.append_left (map here p.subs) (prune-entries l _ n (path, sub) ks e below.1))
              (perm_middle (map here p.subs) _),
        )
]

-- Removing a subscriber that is not at the path is an error, and changes nothing.
pub remove_from-missing :
    (path : List Bytes) (sub : Value) (n : Snode)
    → sub ≢ nil
    → holds path sub n ≡ false
    → ((remove_from (of_path path) sub n).0 ≡ n) × ((remove_from (of_path path) sub n).1 ≢ none)
unfolding remove_from
remove_from-missing [] sub (node p ks) c h = elim (Option-cases (index_of sub p.subs)) [
  | inl e ↦ rw (remove_here-none sub p c e) (refl, λ q. cc)
  | inr (i, e) ↦ unfold holds in ground arith
]
remove_from-missing (l ∷ path) sub (node p ks) c h = elim (Option-cases (find l ks)) [
  | inl e ↦ rw (e, remove_from) (refl, λ q. cc)
  | inr (n, e) ↦
      let below = remove_from-missing path sub n c (holds-found l path sub p ks e h) in
      rw (e, remove_from) (removed_below-some l p ks _ e below.0 below.1)
]

remove_here-error :
    (sub : Value) (p : Subs) → (remove_here sub p).1 ≢ none → (remove_here sub p).0 ≡ p
unfolding remove_here
remove_here-error nil p h = absurd (h refl)
remove_here-error sub p h = ground arith

-- A removal that returns an error, whatever the topic, has changed nothing.
pub remove_from-error :
    (path : Levels) (sub : Value) (n : Snode)
    → (remove_from path sub n).1 ≢ none
    → (remove_from path sub n).0 ≡ n
unfolding remove_from
remove_from-error done sub (node p ks) h = ap (λ q. node q ks) (remove_here-error sub p h)
remove_from-error (bad e) sub n h = refl
remove_from-error (level l path) sub (node p ks) h = elim (Option-cases (find l ks)) [
  | inl f ↦ rw (f, remove_from)
  | inr (n, f) ↦
      rw (f, remove_from)
        (below n f (remove_from path sub n) (remove_from-error path sub n)
          (λ q. h (rw (f, remove_from) q)))
]
  where
    below :
        (n : Snode)
        → find l ks ≡ some n
        → (o : Outcome Snode) → (o.1 ≢ none → o.0 ≡ n)
        → (removed_below l p ks o).1 ≢ none
        → (removed_below l p ks o).0 ≡ node p ks
    below n f (m, none) ih r = absurd (r refl)
    below n f (m, some e) ih r =
        (removed_below-some l p ks (m, some e) f (ih (λ q. cc)) (λ q. cc)).0
