-- ===== src/Topics/Rnode/InTime.antt =====
-- No method of `rnode` runs out of fuel.
use thoth.Base.{inl, inr, none, some, List, Bytes, Bytes-discrete, Option-cases, Option, ite, ◌≡◌}
use thoth.Packets.{PublishPacket}
use thoth.Topics.Level.{mwc, swc}
use thoth.Topics.Levels.{Levels, done, bad, level}
use thoth.Topics.Levels.InTime.{IsProper, IsInTime}
use thoth.Topics.Trie.{Nodes, node, nil, cons, find}
use thoth.Topics.Rnode.{
  Rnode, Msg, Outcome, find_or_new, all_retained, removed_below, rmatch_nodes, rmatch_level,
}
use thoth.Topics.Rnode.Levels.{insert_at, remove_from, match_at}

pub insert_at-IsProper :
    (path : Levels) (msg : PublishPacket) (n : Rnode)
    → IsInTime path
    → IsProper (insert_at path msg n).1
unfolding insert_at
insert_at-IsProper done msg (node m ks) w h = cc
insert_at-IsProper (bad e) msg (node m ks) w h = w (cc)
insert_at-IsProper (level l path) msg (node m ks) w h =
    insert_at-IsProper path msg (find_or_new (find l ks)) w h

removed_below-IsProper :
    (l : Bytes) (m : Msg) (ks : Nodes Msg) (o : Outcome Rnode)
    → IsProper o.1
    → IsProper (removed_below l m ks o).1
removed_below-IsProper l m ks (n, none) w h = cc
removed_below-IsProper l m ks (n, some e) w h = w h

pub remove_from-IsProper :
    (path : Levels) (n : Rnode) → IsInTime path → IsProper (remove_from path n).1
unfolding remove_from
remove_from-IsProper done (node m ks) w = λ h. cc
remove_from-IsProper (bad e) (node m ks) w = λ h. w (cc)
remove_from-IsProper (level l path) (node m ks) w = elim (Option-cases (find l ks)) [
  | inl e ↦ rw (e, remove_from) (λ q. cc)
  | inr (n, e) ↦
      rw (e, remove_from)
        (removed_below-IsProper l m ks (remove_from path n) (remove_from-IsProper path n w))
]

abbrev Search : Type 0
Search = Rnode → List PublishPacket → Outcome (List PublishPacket)

rmatch_nodes-IsProper :
    (next : Search)
    → ((n : Rnode) (msgs : List PublishPacket) → IsProper (next n msgs).1)
    → (ks : Nodes Msg) (msgs : List PublishPacket) → IsProper (rmatch_nodes next ks msgs).1
unfolding rmatch_nodes
rmatch_nodes-IsProper next ih nil msgs = λ h. cc
rmatch_nodes-IsProper next ih (cons k n ks) msgs =
    goes_on (next n msgs) (ih n msgs) (rmatch_nodes-IsProper next ih ks)
  where
    goes_on :
        (o : Outcome (List PublishPacket))
        → IsProper o.1
        → ((msgs : List PublishPacket) → IsProper (rmatch_nodes next ks msgs).1)
        → IsProper
            (elim o.1 as (λ x. Outcome (List PublishPacket)) [
              | some e ↦ (o.0, some e)
              | none ↦ rmatch_nodes next ks o.0
            ]).1
    goes_on (out, none) w rest = rest out
    goes_on (out, some e) w rest = w

rmatch_level-IsProper :
    (next : Search) (l : Bytes)
    → ((n : Rnode) (msgs : List PublishPacket) → IsProper (next n msgs).1)
    → (n : Rnode) (msgs : List PublishPacket) → IsProper (rmatch_level next l n msgs).1
unfolding rmatch_level
rmatch_level-IsProper next l ih (node m ks) msgs =
    of_branch (Bytes-discrete l mwc) (Bytes-discrete l swc) (find l ks)
  where
    of_found :
        (o : Option Rnode)
        → IsProper
            (elim o as (λ x. Outcome (List PublishPacket)) [
              | none ↦ (msgs, none)
              | some n ↦ next n msgs
            ]).1
    of_found none = λ h. cc
    of_found (some n) = ih n msgs

    of_branch :
        (p : Dec (l ≡ mwc)) (q : Dec (l ≡ swc)) (o : Option Rnode)
        → IsProper
            (ite p
              (all_retained (node m ks) msgs, none)
              (ite q (rmatch_nodes next ks msgs) (elim o as (λ x. Outcome (List PublishPacket)) [
                | none ↦ (msgs, none)
                | some n ↦ next n msgs
              ]))).1
    of_branch (yes p) q o = λ h. cc
    of_branch (no p) (yes q) o = rmatch_nodes-IsProper next ih ks msgs
    of_branch (no p) (no q) o = of_found o

pub match_at-IsProper :
    (path : Levels) (n : Rnode) (msgs : List PublishPacket)
    → IsInTime path
    → IsProper (match_at path n msgs).1
unfolding match_at
match_at-IsProper done (node m ks) msgs w = λ h. cc
match_at-IsProper (bad e) (node m ks) msgs w = λ h. w (cc)
match_at-IsProper (level l path) (node m ks) msgs w =
    rmatch_level-IsProper (match_at path) l (λ n o. match_at-IsProper path n o w) (node m ks) msgs
