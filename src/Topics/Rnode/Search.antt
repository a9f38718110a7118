-- ===== src/Topics/Rnode/Search.antt =====
-- `rmatch` appends the retained messages whose topic matches the path of the search.
use mathlib.Core.List.{map-append}
use thoth.Base.{
  ◌≡◌, ◌≢◌, refl, sym, ap, ◌∙◌, inl, inr, none, some, List, [], ◌∷◌, ◌++◌, map, append-nil,
  append_assoc, Bytes, Bytes-discrete, if_pos, if_neg, Option-cases,
}
use thoth.Packets.{PublishPacket}
use thoth.Topics.Level.{mwc, swc}
use thoth.Topics.Levels.{of_path, IsFilter}
use thoth.Topics.Trie.{Nodes, node, nil, cons, find}
use thoth.Topics.Trie.Laws.{find_hit, find_miss, found_hit}
use thoth.Topics.Trie.Entries.{here, under, leaves}
use thoth.Topics.Trie.Shape.{IsNodes, find-IsNode}
use thoth.Topics.Rnode.Levels.{match_at}
use thoth.Topics.Rnode.Lookup.{AnyMsg, IsRnode}
use thoth.Topics.Rnode.Answers.{
  Entry, msg_of, entries, entries_below, answers, answers-append, answers-mwc, answers-nil_here,
  answers-nil_below, answers-here, answers-swc, answers-level,
}
use thoth.Topics.Rnode.{
  Msg, Rnode, Outcome, append_msg, all_retained, all_retained_below, rmatch_nodes, rmatch_level,
}

append_msg-lem : (m : Msg) (msgs : List PublishPacket) → append_msg m msgs ≡ msgs ++ msg_of m
append_msg-lem none msgs = sym (append-nil msgs)
append_msg-lem (some m) msgs = refl

abbrev values : List Entry → List PublishPacket
values = map (λ e. e.1)

values-under : (k : Bytes) (es : List Entry) → values (map (under k) es) ≡ values es
values-under k [] = refl
values-under k (e ∷ es) = ap (◌∷◌ e.1) (values-under k es)

values-here : (m : Msg) → values (map here (msg_of m)) ≡ msg_of m
values-here none = refl
values-here (some m) = refl

mutual
  unfolding all_retained leaves

  all_retained-values :
      (n : Rnode) (msgs : List PublishPacket) → all_retained n msgs ≡ msgs ++ values (entries n)
  all_retained-values (node m ks) msgs =
      all_retained_below-values ks (append_msg m msgs)
      ∙ rw (append_msg-lem m msgs, map-append, values-here m, append_assoc)

  all_retained_below-values :
      (ks : Nodes Msg) (msgs : List PublishPacket)
      → all_retained_below ks msgs ≡ msgs ++ values (entries_below ks)
  all_retained_below-values nil msgs = sym (append-nil msgs)
  all_retained_below-values (cons k n ks) msgs =
      all_retained_below-values ks (all_retained n msgs)
      ∙ rw (all_retained-values n msgs, map-append, values-under k (entries n), append_assoc)

-- The loop under "+", where the recursive call does what it should.
rmatch_nodes-answers :
    (next : Rnode → List PublishPacket → Outcome (List PublishPacket)) (path : List Bytes)
    → ((n : Rnode) (msgs : List PublishPacket)
        → IsRnode n
        → next n msgs ≡ (msgs ++ answers path (entries n), none))
    → (ks : Nodes Msg) (msgs : List PublishPacket) → IsNodes AnyMsg ks
    → rmatch_nodes next ks msgs ≡ (msgs ++ answers (swc ∷ path) (entries_below ks), none)
unfolding rmatch_nodes leaves
rmatch_nodes-answers next path ih nil msgs w =
    unfold answers in ap (λ o. (o, none)) (sym (append-nil msgs))
rmatch_nodes-answers next path ih (cons k n ks) msgs w =
    ap
      (λ (o : Outcome (List PublishPacket)). elim o.1 [
        | some e ↦ (o.0, some e)
        | none ↦ rmatch_nodes next ks o.0
      ])
      (ih n msgs w.1)
    ∙ rmatch_nodes-answers next path ih ks (msgs ++ answers path (entries n)) w.2
    ∙ ap (λ o. (o, none))
        (append_assoc msgs (answers path (entries n)) (answers (swc ∷ path) (entries_below ks))
          ∙ ap (◌++◌ msgs) (
              ap (λ vs. vs ++ answers (swc ∷ path) (entries_below ks))
                (sym (answers-swc path k (entries n)))
              ∙ sym (answers-append (swc ∷ path) (map (under k) (entries n)) (entries_below ks))))

-- A level that is no wildcard: the node under it, if there is one.
answers-absent :
    (l : Bytes) (path : List Bytes) (ks : Nodes Msg)
    → l ≢ mwc
    → l ≢ swc
    → find l ks ≡ none
    → answers (l ∷ path) (entries_below ks) ≡ []
unfolding leaves
answers-absent l path nil g h f = unfold answers in refl
answers-absent l path (cons k n ks) g h f = elim (Bytes-discrete k l) [
  | yes p ↦ cc (find_hit n ks p)
  | no p ↦
      rw
        (
          answers-append (l ∷ path) (map (under k) (entries n)) (entries_below ks),
          answers-level l k path (entries n) g h,
          if_neg (Bytes-discrete l k) (λ q. p (sym q)),
        )
        (answers-absent l path ks g h (sym (find_miss n ks p) ∙ f))
]

answers-present :
    (l : Bytes) (path : List Bytes) (ks : Nodes Msg) {n : Rnode}
    → l ≢ mwc
    → l ≢ swc
    → IsNodes AnyMsg ks
    → find l ks ≡ some n
    → answers (l ∷ path) (entries_below ks) ≡ answers path (entries n)
unfolding leaves
answers-present l path nil g h w f = unfold find in cc f
answers-present l path (cons k o ks) g h w f = elim (Bytes-discrete k l) [
  | yes p ↦ rw (
    answers-append (l ∷ path) (map (under k) (entries o)) (entries_below ks),
    answers-level l k path (entries o) g h,
    if_pos (Bytes-discrete l k) (sym p),
    answers-absent l path ks g h (rw p at w.0),
    append-nil,
    found_hit ks f p,
  )
  | no p ↦
      rw
        (
          answers-append (l ∷ path) (map (under k) (entries o)) (entries_below ks),
          answers-level l k path (entries o) g h,
          if_neg (Bytes-discrete l k) (λ q. p (sym q)),
        )
        (answers-present l path ks g h w.2 (sym (find_miss o ks p) ∙ f))
]

answers-node :
    (l : Bytes) (path : List Bytes) (m : Msg) (ks : Nodes Msg)
    → l ≢ mwc
    → answers (l ∷ path) (entries (node m ks)) ≡ answers (l ∷ path) (entries_below ks)
unfolding leaves
answers-node l path m ks h =
    rw (answers-append (l ∷ path) (map here (msg_of m)) (entries_below ks), answers-here l path m h)

rmatch_level-answers :
    (next : Rnode → List PublishPacket → Outcome (List PublishPacket)) (l : Bytes)
    (path : List Bytes)
    → ((n : Rnode) (msgs : List PublishPacket)
        → IsRnode n
        → next n msgs ≡ (msgs ++ answers path (entries n), none))
    → (l ≡ mwc → path ≡ [])
    → (n : Rnode) (msgs : List PublishPacket) → IsRnode n
    → rmatch_level next l n msgs ≡ (msgs ++ answers (l ∷ path) (entries n), none)
unfolding rmatch_level
rmatch_level-answers next l path ih last (node m ks) msgs w = elim (Bytes-discrete l mwc) [
  | yes p ↦ rw (
    if_pos (Bytes-discrete l mwc) p,
    all_retained-values (node m ks) msgs,
    p,
    last p,
    answers-mwc (entries (node m ks)),
  )
  | no p ↦
      rw (if_neg (Bytes-discrete l mwc) p, answers-node l path m ks p)
        (elim (Bytes-discrete l swc) [
          | yes q ↦
              rw (if_pos (Bytes-discrete l swc) q, q)
                (rmatch_nodes-answers next path ih ks msgs w.1)
          | no q ↦ rw (if_neg (Bytes-discrete l swc) q) (elim (Option-cases (find l ks)) [
            | inl e ↦ rw (e, answers-absent l path ks p q e, append-nil)
            | inr (n, e) ↦
                rw (e, answers-present l path ks p q w.1 e)
                  (ih n msgs (find-IsNode AnyMsg l ks w.1 e))
          ])
        ])
]

answers-nil : (m : Msg) (ks : Nodes Msg) → answers [] (entries (node m ks)) ≡ msg_of m
unfolding leaves
answers-nil m ks = rw (
  answers-append [] (map here (msg_of m)) (entries_below ks),
  answers-nil_here m,
  answers-nil_below ks,
  append-nil,
)

-- In a well-formed tree the search of a path with "#" at its end only is no error, and finds the
-- messages of the entries that the path matches.
pub match_at-answers :
    (path : List Bytes) (n : Rnode) (msgs : List PublishPacket)
    → IsFilter path
    → IsRnode n
    → match_at (of_path path) n msgs ≡ (msgs ++ answers path (entries n), none)
unfolding match_at
match_at-answers [] (node m ks) msgs v w =
    ap (λ o. (o, none)) (append_msg-lem m msgs ∙ ap (◌++◌ msgs) (sym (answers-nil m ks)))
match_at-answers (l ∷ path) (node m ks) msgs v w =
    rmatch_level-answers (match_at (of_path path)) l path (λ n o u. match_at-answers path n o v.1 u)
      v.0 (node m ks) msgs w
