-- ===== src/Topics/Snode/Below.antt =====
-- The subscribers in a tree when all are pointers below a bound, as are those of a broker, whose
-- pointers are addresses of subscriptions.
use thoth.Base.{
  ℕ, suc, ◌≡◌, ◌<◌, ◌≤◌, refl, subst, arith, inl, inr, false, none, List, [], ◌∷◌, Bytes, take,
  drop, Bool-cases, Option-cases,
}
use thoth.All.{All, All-append, All-map, All-take, All-drop}
use thoth.Topics.Levels.{levels}
use thoth.Topics.Trie.{Nodes, node, nil, cons, find}
use thoth.Topics.Trie.Shape.{IsNode, IsNodes, find-IsNode}
use thoth.Topics.Value.{Value, equal, equal_iff}
use thoth.Topics.Snode.Entries.{holds}
use thoth.Topics.Snode.Levels.{sinsert-eq-insert_at, sremove-eq-remove_from}
use thoth.Topics.Snode.Shape.{insert_at-IsNode, remove_from-IsNode}
use thoth.Topics.Snode.{Subs, Snode, index_of, insert_here, remove_here, sinsert, sremove}

abbrev pub IsBelow : ℕ → Value → Type 0
IsBelow n (Value.pointer a) = a < n
IsBelow n v = ⊥

abbrev pub AreBelow : ℕ → Subs → Type 0
AreBelow n p = All (IsBelow n) p.subs

IsBelow-le : (m n : ℕ) → m ≤ n → (v : Value) → IsBelow m v → IsBelow n v
IsBelow-le m n l (Value.pointer a) h = omega arith
IsBelow-le m n l Value.nil h = h
IsBelow-le m n l (Value.func a) h = h
IsBelow-le m n l (Value.text a) h = h
IsBelow-le m n l (Value.number a k) h = h

mutual
  pub IsNode-le : (m n : ℕ) → m ≤ n → (t : Snode) → IsNode (AreBelow m) t → IsNode (AreBelow n) t
  IsNode-le m n l (node p ks) w =
      (All-map (IsBelow m) (IsBelow n) (IsBelow-le m n l) p.subs w.0, IsNodes-le m n l ks w.1)

  pub IsNodes-le :
      (m n : ℕ) → m ≤ n → (ks : Nodes Subs) → IsNodes (AreBelow m) ks → IsNodes (AreBelow n) ks
  IsNodes-le m n l nil w = tt
  IsNodes-le m n l (cons k t ks) w = (w.0, IsNode-le m n l t w.1, IsNodes-le m n l ks w.2)

insert_here-AreBelow :
    (n qos : ℕ) (v : Value)
    → IsBelow n v
    → (p : Subs) → AreBelow n p
    → AreBelow n (insert_here qos v p)
unfolding insert_here
insert_here-AreBelow n qos v b p h = elim (Option-cases (index_of v p.subs)) [
  | inl e ↦ rw (e, insert_here) (All-append (IsBelow n) p.subs (v ∷ []) h (b, tt))
  | inr (i, e) ↦ rw (e, insert_here) h
]

remove_here-AreBelow :
    (n : ℕ) (v : Value) (p : Subs) → AreBelow n p → AreBelow n (remove_here v p).0
unfolding remove_here
remove_here-AreBelow n Value.nil p h = tt
remove_here-AreBelow n v p h = elim (Option-cases (index_of v p.subs)) [
  | inl e ↦ rw (e, remove_here) h
  | inr (i, e) ↦
      rw (e, remove_here)
        (All-append (IsBelow n) (take i p.subs) (drop (suc i) p.subs)
          (All-take (IsBelow n) i p.subs h) (All-drop (IsBelow n) (suc i) p.subs h))
]

pub sinsert-AreBelow :
    (n f : ℕ) (topic : Bytes) (qos : ℕ) (v : Value) (t : Snode)
    → IsBelow n v
    → IsNode (AreBelow n) t
    → IsNode (AreBelow n) (sinsert f topic qos v t).0
sinsert-AreBelow n f topic qos v t b w =
    rw (sinsert-eq-insert_at f topic qos v t)
      (insert_at-IsNode (AreBelow n) tt (levels f topic) qos v t (insert_here-AreBelow n qos v b) w)

pub sremove-AreBelow :
    (n f : ℕ) (topic : Bytes) (v : Value) (t : Snode)
    → IsNode (AreBelow n) t
    → IsNode (AreBelow n) (sremove f topic v t).0
sremove-AreBelow n f topic v t w =
    rw (sremove-eq-remove_from f topic v t)
      (remove_from-IsNode (AreBelow n) tt (levels f topic) v t (remove_here-AreBelow n v) w)

equal-below : (n : ℕ) (v : Value) → IsBelow n v → equal v (Value.pointer n) ≡ false
equal-below n v b = elim (Bool-cases (equal v (Value.pointer n))) [
  | inl e ↦ absurd (below_ne n (subst (IsBelow n) ((equal_iff v (Value.pointer n)).0 e).0 b))
  | inr e ↦ e
]
  where
    below_ne : (n : ℕ) → n < n → ⊥
    below_ne n l = omega arith

index_of-below :
    (n : ℕ) (vs : List Value) → All (IsBelow n) vs → index_of (Value.pointer n) vs ≡ none
unfolding index_of
index_of-below n [] h = refl
index_of-below n (v ∷ vs) h = rw (index_of, equal-below n v h.0, index_of-below n vs h.1) refl

-- A pointer that is not below the bound stands nowhere.
pub holds-AreBelow :
    (n : ℕ) (p : List Bytes) (t : Snode)
    → IsNode (AreBelow n) t
    → holds p (Value.pointer n) t ≡ false
unfolding holds
holds-AreBelow n [] (node p ks) w = rw (holds, index_of-below n p.subs w.0) refl
holds-AreBelow n (l ∷ path) (node p ks) w = elim (Option-cases (find l ks)) [
  | inl e ↦ rw (holds, e) refl
  | inr (m, e) ↦ rw (holds, e) (holds-AreBelow n path m (find-IsNode (AreBelow n) l ks w.1 e))
]
