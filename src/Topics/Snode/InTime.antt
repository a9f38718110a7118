-- ===== src/Topics/Snode/InTime.antt =====
-- No method of `snode` runs out of fuel.
use thoth.Base.{ℕ, inl, inr, none, some, Bytes, arith, Option-cases}
use thoth.Topics.Levels.{Levels, done, bad, level}
use thoth.Topics.Levels.InTime.{IsProper, IsInTime}
use thoth.Topics.Trie.{Nodes, node, nil, cons, find}
use thoth.Topics.Value.{Value}
use thoth.Topics.Snode.{
  Snode, Found, Subs, Outcome, find_or_new, remove_here, removed_below, visit, smatch_nodes,
}
use thoth.Topics.Snode.Levels.{insert_at, remove_from, match_at}

pub insert_at-IsProper :
    (path : Levels) (qos : ℕ) (sub : Value) (n : Snode)
    → IsInTime path
    → IsProper (insert_at path qos sub n).1
unfolding insert_at
insert_at-IsProper done qos sub (node p ks) w h = cc
insert_at-IsProper (bad e) qos sub (node p ks) w h = w (cc)
insert_at-IsProper (level l path) qos sub (node p ks) w h =
    insert_at-IsProper path qos sub (find_or_new (find l ks)) w h

remove_here-IsProper : (sub : Value) (p : Subs) → IsProper (remove_here sub p).1
unfolding remove_here
remove_here-IsProper Value.nil p h = cc
remove_here-IsProper _ p h = ground arith

removed_below-IsProper :
    (l : Bytes) (p : Subs) (ks : Nodes Subs) (o : Outcome Snode)
    → IsProper o.1
    → IsProper (removed_below l p ks o).1
removed_below-IsProper l p ks (n, none) w h = cc
removed_below-IsProper l p ks (n, some e) w h = w h

pub remove_from-IsProper :
    (path : Levels) (sub : Value) (n : Snode) → IsInTime path → IsProper (remove_from path sub n).1
unfolding remove_from
remove_from-IsProper done sub (node p ks) w = remove_here-IsProper sub p
remove_from-IsProper (bad e) sub (node p ks) w = λ h. w (cc)
remove_from-IsProper (level l path) sub (node p ks) w = elim (Option-cases (find l ks)) [
  | inl e ↦ rw (e, remove_from) (λ q. cc)
  | inr (n, e) ↦
      rw (e, remove_from) (removed_below-IsProper l p ks _ (remove_from-IsProper path sub n w))
]

visit-IsProper :
    (next : Snode → Found → Outcome Found) (qos : ℕ) (l k : Bytes) (n : Snode) (out : Found)
    → IsProper (next n out).1
    → IsProper (visit next qos l k n out).1
unfolding visit
visit-IsProper next qos l k n out w h = ground arith

smatch_nodes-IsProper :
    (next : Snode → Found → Outcome Found) (qos : ℕ) (l : Bytes)
    → ((n : Snode) (out : Found) → IsProper (next n out).1)
    → (ks : Nodes Subs) (out : Found) → IsProper (smatch_nodes next qos l ks out).1
unfolding smatch_nodes
smatch_nodes-IsProper next qos l ih nil out = λ h. cc
smatch_nodes-IsProper next qos l ih (cons k n ks) out =
    goes_on (visit next qos l k n out) (visit-IsProper next qos l k n out (ih n out))
      (λ o. smatch_nodes-IsProper next qos l ih ks o)
  where
    goes_on :
        (o : Outcome Found)
        → IsProper o.1
        → ((out : Found) → IsProper (smatch_nodes next qos l ks out).1)
        → IsProper
            (elim o.1 as (λ x. Outcome Found) [
              | some e ↦ (o.0, some e)
              | none ↦ smatch_nodes next qos l ks o.0
            ]).1
    goes_on (out, none) w rest = rest out
    goes_on (out, some e) w rest = w

pub match_at-IsProper :
    (path : Levels) (qos : ℕ) (n : Snode) (out : Found)
    → IsInTime path
    → IsProper (match_at path qos n out).1
unfolding match_at
match_at-IsProper done qos (node p ks) out w = λ h. cc
match_at-IsProper (bad e) qos (node p ks) out w = λ h. w (cc)
match_at-IsProper (level l path) qos (node p ks) out w =
    smatch_nodes-IsProper (match_at path qos) qos l (λ n o. match_at-IsProper path qos n o w) ks out
