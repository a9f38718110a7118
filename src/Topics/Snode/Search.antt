-- ===== src/Topics/Snode/Search.antt =====
-- `smatch` appends the subscribers of the entries that match, each once, with the QoS asked for.
use thoth.Base.{
  ℕ, ◌≡◌, refl, sym, ap, ◌∙◌, none, List, [], ◌∷◌, ◌++◌, map, append-nil, arith, Bytes,
  Bytes-discrete, if_pos,
}
use thoth.Topics.Level.{mwc}
use thoth.Topics.Trie.{Nodes, node, nil, cons, payload, find}
use thoth.Topics.Trie.Laws.{find_hit, find_miss}
use thoth.Topics.Snode.Levels.{match_at}
use thoth.Topics.Trie.Entries.{here, under, leaves}
use thoth.Topics.Snode.Entries.{entries, entries_below}
use thoth.Topics.Snode.Shape.{IsSnode, IsSnodes}
use thoth.Topics.Snode.Match.{
  hits, hits-append, hits-here_nil, hits-here_cons, hits-mwc, hits-end, hits-step, found, found-nil,
  found-found, match_qos-eq-found,
}
use thoth.Topics.Levels.{of_path}
use thoth.Topics.Snode.{Subs, Snode, Found, Outcome, match_node, match_found, visit, smatch_nodes}

match_node-eq-found :
    (qos : ℕ) (n : Snode) (out : Found) → match_node qos n out ≡ found qos (payload n).subs out
unfolding match_node
match_node-eq-found qos n out = match_qos-eq-found qos (payload n).subs out

visit-eq-found :
    (next : Snode → Found → Outcome Found) (qos : ℕ) (l k : Bytes) (ts : List Bytes) (n : Snode)
    (out : Found)
    → next n out ≡ (found qos (hits ts (entries n)) out, none)
    → visit next qos l k n out ≡ (found qos (hits (l ∷ ts) (map (under k) (entries n))) out, none)
unfolding visit
visit-eq-found next qos l k ts n out h = elim (Bytes-discrete k mwc) [
  | yes p ↦ rw (if_pos (Bytes-discrete k mwc) p) (
      ap (λ o. (o, none))
        (match_node-eq-found qos n out
          ∙ rw p (ap (λ vs. found qos vs out) (sym (hits-mwc (l ∷ ts) n)))))
  | no p ↦ rw (hits-step k l ts (entries n) p) (ground (arith, found-nil qos out))
]

smatch_nodes-step :
    (next : Snode → Found → Outcome Found) (qos : ℕ) (l k : Bytes) (n : Snode) (ks : Nodes Subs)
    (out : Found) {o : Found}
    → visit next qos l k n out ≡ (o, none)
    → smatch_nodes next qos l (cons k n ks) out ≡ smatch_nodes next qos l ks o
unfolding smatch_nodes
smatch_nodes-step next qos l k n ks out h = ground arith

-- The loop, where the recursive call does what it should.
smatch_nodes-eq-found :
    (next : Snode → Found → Outcome Found) (qos : ℕ) (l : Bytes) (ts : List Bytes)
    → ((n : Snode) (out : Found)
        → IsSnode n
        → next n out ≡ (found qos (hits ts (entries n)) out, none))
    → (ks : Nodes Subs) (out : Found) → IsSnodes ks
    → smatch_nodes next qos l ks out ≡ (found qos (hits (l ∷ ts) (entries_below ks)) out, none)
unfolding leaves
smatch_nodes-eq-found next qos l ts ih nil out w =
    unfold hits smatch_nodes in ap (λ o. (o, none)) (sym (found-nil qos out))
smatch_nodes-eq-found next qos l ts ih (cons k n ks) out w =
    let vs = hits (l ∷ ts) (map (under k) (entries n)) in
    let ws = hits (l ∷ ts) (entries_below ks) in
    smatch_nodes-step next qos l k n ks out (visit-eq-found next qos l k ts n out (ih n out w.1))
    ∙ smatch_nodes-eq-found next qos l ts ih ks (found qos vs out) w.2
    ∙ ap (λ o. (o, none)) (found-found qos vs ws out)
    ∙ ap (λ us. (found qos us out, none))
        (sym (hits-append (l ∷ ts) (map (under k) (entries n)) (entries_below ks)))

-- At the end of the topic, "#" below the node matches too.
hits-absent : (ks : Nodes Subs) → find mwc ks ≡ none → hits [] (entries_below ks) ≡ []
unfolding leaves
hits-absent nil h = unfold hits in refl
hits-absent (cons k n ks) h = elim (Bytes-discrete k mwc) [
  | yes p ↦ cc (find_hit n ks p)
  | no p ↦
      rw (hits-append [] (map (under k) (entries n)) (entries_below ks), hits-end k (entries n) p)
        (hits-absent ks (sym (find_miss n ks p) ∙ h))
]

match_found-eq-found :
    (qos : ℕ) (ks : Nodes Subs) (out : Found)
    → IsSnodes ks
    → match_found qos (find mwc ks) out ≡ found qos (hits [] (entries_below ks)) out
unfolding leaves
match_found-eq-found qos nil out w = unfold hits find in sym (found-nil qos out)
match_found-eq-found qos (cons k n ks) out w = elim (Bytes-discrete k mwc) [
  | yes p ↦
      rw
        (
          find_hit n ks p,
          hits-append [] (map (under k) (entries n)) (entries_below ks),
          hits-absent ks (rw p at w.0),
          append-nil,
        )
        (match_node-eq-found qos n out ∙ rw p (ap (λ vs. found qos vs out) (sym (hits-mwc [] n))))
  | no p ↦
      rw
        (
          find_miss n ks p,
          hits-append [] (map (under k) (entries n)) (entries_below ks),
          hits-end k (entries n) p,
        )
        (match_found-eq-found qos ks out w.2)
]

hits-subs_nil :
    (p : Subs) (ks : Nodes Subs)
    → hits [] (entries (node p ks)) ≡ p.subs ++ hits [] (entries_below ks)
unfolding leaves
hits-subs_nil p ks = rw (hits-append [] (map here p.subs) (entries_below ks), hits-here_nil p.subs)

hits-subs_cons :
    (t : Bytes) (ts : List Bytes) (p : Subs) (ks : Nodes Subs)
    → hits (t ∷ ts) (entries (node p ks)) ≡ hits (t ∷ ts) (entries_below ks)
unfolding leaves
hits-subs_cons t ts p ks =
    rw (hits-append (t ∷ ts) (map here p.subs) (entries_below ks), hits-here_cons t ts p.subs)

-- In a well-formed tree the search of a topic without an error is no error, and it finds the
-- subscribers of the entries whose path matches the topic, each with the QoS of the search.
pub match_at-eq-found :
    (path : List Bytes) (qos : ℕ) (n : Snode) (out : Found)
    → IsSnode n
    → match_at (of_path path) qos n out ≡ (found qos (hits path (entries n)) out, none)
unfolding match_at
match_at-eq-found [] qos (node p ks) out w =
    ap (λ o. (o, none))
      (match_found-eq-found qos ks _ w.1
        ∙ ap (found qos (hits [] (entries_below ks))) (match_node-eq-found qos (node p ks) out)
        ∙ found-found qos p.subs (hits [] (entries_below ks)) out
        ∙ ap (λ vs. found qos vs out) (sym (hits-subs_nil p ks)))
match_at-eq-found (l ∷ path) qos (node p ks) out w =
    smatch_nodes-eq-found (match_at (of_path path) qos) qos l path
      (λ n o v. match_at-eq-found path qos n o v) ks out w.1
    ∙ ap (λ vs. (found qos vs out, none)) (sym (hits-subs_cons l path p ks))
