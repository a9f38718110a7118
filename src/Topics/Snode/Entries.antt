-- ===== src/Topics/Snode/Entries.antt =====
-- The entries of a subscription tree: each a path of levels and a subscriber.
use mathlib.Core.List.{Perm}
use thoth.Base.{◌≡◌, refl, Bool, true, false, none, some, List, [], ◌∷◌, ◌++◌, map, Bytes}
use thoth.Topics.Trie.{Nodes, node, nil, cons, no_nodes, find}
use thoth.Topics.Trie.Entries.{here, leaves, leaves_below, under, prune-less}
use thoth.Topics.Trie.Entries
use thoth.Topics.Value.{Value}
use thoth.Topics.Snode.{Subs, Snode, is_empty, prune, index_of}

abbrev pub Entry : Type 0
Entry = Entries.Entry Value

abbrev pub subs_of : Subs → List Value
subs_of p = p.subs

abbrev pub entries : Snode → List Entry
entries = leaves subs_of

abbrev pub entries_below : Nodes Subs → List Entry
entries_below = leaves_below subs_of

-- Whether the subscriber stands at the path, as `equal` finds it.
unfoldable pub holds : List Bytes → Value → Snode → Bool
holds [] sub (node p ks) = elim (index_of sub p.subs) [ none ↦ false | some i ↦ true ]
holds (l ∷ path) sub (node p ks) = elim (find l ks) [ none ↦ false | some n ↦ holds path sub n ]

no_nodes-nil : (ks : Nodes Subs) → no_nodes ks ≡ true → ks ≡ nil
no_nodes-nil nil h = refl
no_nodes-nil (cons k n ks) h = cc

is_empty-nil :
    (q : List Value) (ks : Nodes Subs)
    → elim q [ [] ↦ no_nodes ks | s ∷ ss ↦ false ] ≡ true
    → map here q ++ entries_below ks ≡ []
unfolding leaves
is_empty-nil [] ks h = rw (no_nodes-nil ks h)
is_empty-nil (s ∷ ss) ks h = cc

entries-is_empty : (n : Snode) → is_empty n ≡ true → entries n ≡ []
unfolding leaves
entries-is_empty (node p ks) h = is_empty-nil p.subs ks h

-- `sremove` deletes the key of a node only if that has no entry.
pub prune-entries :
    (l : Bytes) (m n : Snode) (e : Entry) (ks : Nodes Subs)
    → find l ks ≡ some n
    → Perm (entries n) (e ∷ entries m)
    → Perm (entries_below ks) (under l e ∷ entries_below (prune l m ks))
prune-entries l m n e ks f h = prune-less subs_of l m n e ks (is_empty m) f (entries-is_empty m) h
