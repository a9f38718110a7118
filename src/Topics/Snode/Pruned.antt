-- ===== src/Topics/Snode/Pruned.antt =====
-- No node but the root is empty. A removal keeps that, and so does an insertion without an error.
use thoth.Base.{
  ℕ, ◌≡◌, ◌≢◌, ◌⊎◌, refl, sym, ◌∙◌, inl, inr, false, none, some, List, [], ◌∷◌, arith, Bytes,
  Bytes-discrete, Option-cases, List-cases, Bool-cases,
}
use thoth.Topics.Trie.{Nodes, node, nil, cons, no_nodes, find, put, delete}
use thoth.Topics.Trie.Laws.{find_miss, found_hit, put_hit, put_miss, delete_hit, delete_miss}
use thoth.Topics.Value.{Value}
use thoth.Topics.Snode.Levels.{insert_at, remove_from}
use thoth.Topics.Snode.Remove.{remove_from-error}
use thoth.Topics.Levels.{Levels, done, bad, level, of_path}
use thoth.Topics.Snode.{
  Subs, Snode, Outcome, find_or_new, index_of, insert_here, removed_below, is_empty,
}

abbrev mutual
  pub IsPruned : Snode → Type 0
  IsPruned (node p ks) = ArePruned ks

  pub ArePruned : Nodes Subs → Type 0
  ArePruned nil = Unit
  ArePruned (cons k n ks) = (is_empty n ≡ false) × IsPruned n × ArePruned ks

pub find-IsPruned :
    (l : Bytes) (ks : Nodes Subs) {n : Snode}
    → ArePruned ks
    → find l ks ≡ some n
    → (is_empty n ≡ false) × IsPruned n
find-IsPruned l nil w f = unfold find in cc f
find-IsPruned l (cons k o ks) w f = elim (Bytes-discrete k l) [
  | yes p ↦ rw (found_hit ks f p) (w.0, w.1)
  | no p ↦ find-IsPruned l ks w.2 (sym (find_miss o ks p) ∙ f)
]

pub find_or_new-IsPruned :
    (l : Bytes) (ks : Nodes Subs) → ArePruned ks → IsPruned (find_or_new (find l ks))
find_or_new-IsPruned l ks w = elim (Option-cases (find l ks)) [
  | inl e ↦ rw e tt
  | inr (n, e) ↦ rw e (find-IsPruned l ks w e).1
]

put-ArePruned :
    (l : Bytes) (m : Snode) (ks : Nodes Subs)
    → ArePruned ks
    → is_empty m ≡ false
    → IsPruned m
    → ArePruned (put l m ks)
put-ArePruned l m nil w e v = unfold put in (e, v, tt)
put-ArePruned l m (cons k o ks) w e v = elim (Bytes-discrete k l) [
  | yes p ↦ rw (put_hit m o ks p) (e, v, w.2)
  | no p ↦ rw (put_miss m o ks p) (w.0, w.1, put-ArePruned l m ks w.2 e v)
]

delete-ArePruned : (l : Bytes) (ks : Nodes Subs) → ArePruned ks → ArePruned (delete l ks)
delete-ArePruned l nil w = unfold delete in tt
delete-ArePruned l (cons k o ks) w = elim (Bytes-discrete k l) [
  | yes p ↦ rw (delete_hit o ks p) w.2
  | no p ↦ rw (delete_miss o ks p) (w.0, w.1, delete-ArePruned l ks w.2)
]

no_nodes-put : (l : Bytes) (m : Snode) (ks : Nodes Subs) → no_nodes (put l m ks) ≡ false
unfolding put
no_nodes-put l m nil = refl
no_nodes-put l m (cons k o ks) = ground arith

not-empty :
    (p : Subs) (ks : Nodes Subs)
    → (p.subs ≢ []) ⊎ (no_nodes ks ≡ false)
    → is_empty (node p ks) ≡ false
not-empty p ks h = ground arith

insert_here-ne-nil : (qos : ℕ) (sub : Value) (p : Subs) → (insert_here qos sub p).subs ≢ []
unfolding insert_here index_of
insert_here-ne-nil qos sub p h = elim (List-cases p.subs) [
  | inl e ↦ ground arith
  | inr (s, ss, e) ↦ ground arith
]

-- An insertion leaves no empty node at its path.
pub not-is_empty-insert_at :
    (path : List Bytes) (qos : ℕ) (sub : Value) (n : Snode)
    → is_empty (insert_at (of_path path) qos sub n).0 ≡ false
unfolding insert_at
not-is_empty-insert_at [] qos sub (node p ks) =
    not-empty (insert_here qos sub p) ks (inl (insert_here-ne-nil qos sub p))
not-is_empty-insert_at (l ∷ path) qos sub (node p ks) = not-empty p _ (inr (no_nodes-put l _ ks))

pub insert_at-IsPruned :
    (path : List Bytes) (qos : ℕ) (sub : Value) (n : Snode)
    → IsPruned n
    → IsPruned (insert_at (of_path path) qos sub n).0
unfolding insert_at
insert_at-IsPruned [] qos sub (node p ks) w = w
insert_at-IsPruned (l ∷ path) qos sub (node p ks) w =
    put-ArePruned l _ ks w (not-is_empty-insert_at path qos sub (find_or_new (find l ks)))
      (insert_at-IsPruned path qos sub (find_or_new (find l ks)) (find_or_new-IsPruned l ks w))

pub remove_from-IsPruned :
    (path : Levels) (sub : Value) (n : Snode) → IsPruned n → IsPruned (remove_from path sub n).0
unfolding remove_from
remove_from-IsPruned done sub (node p ks) w = w
remove_from-IsPruned (bad e) sub (node p ks) w = w
remove_from-IsPruned (level l path) sub (node p ks) w = elim (Option-cases (find l ks)) [
  | inl e ↦ rw (e, remove_from) w
  | inr (n, e) ↦
      rw (e, remove_from)
        (below n e (remove_from path sub n) (remove_from-error path sub n)
          (remove_from-IsPruned path sub n (find-IsPruned l ks w e).1))
]
  where
    below :
        (n : Snode)
        → find l ks ≡ some n
        → (o : Outcome Snode) → (o.1 ≢ none → o.0 ≡ n)
        → IsPruned o.0
        → IsPruned (removed_below l p ks o).0
    below n e (m, none) same v = elim (Bool-cases (is_empty m)) [
      | inl b ↦ rw b (delete-ArePruned l ks w)
      | inr b ↦ rw b (put-ArePruned l m ks w b v)
    ]
    below n e (m, some x) same v =
        put-ArePruned l m ks w (rw (same (λ q. cc)) (find-IsPruned l ks w e).0) v
