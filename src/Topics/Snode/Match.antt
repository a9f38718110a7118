-- ===== src/Topics/Snode/Match.antt =====
-- What `smatch` finds: the subscribers of the entries whose path matches the topic.
use mathlib.Core.List.{map-append}
use thoth.Base.{
  ℕ, ◌≡◌, ◌≢◌, refl, sym, ap, ◌∙◌, List, [], ◌∷◌, ◌++◌, map, append-nil, append_assoc, arith, Bytes,
  Bytes-discrete, ite, if_neg, if◌then◌else◌,
}
use thoth.Topics.Level.{mwc, swc}
use thoth.Topics.Trie.{Nodes, node, nil, cons, payload}
use thoth.Topics.Matching.{matches, matches-mwc}
use thoth.Topics.Value.{Value}
use thoth.Topics.Trie.Entries.{here, under, leaves}
use thoth.Topics.Snode.Entries.{Entry, entries, entries_below}
use thoth.Topics.Snode.{Subs, Snode, Found, match_qos}

-- The subscribers of the entries that match.
unfoldable pub hits : List Bytes → List Entry → List Value
hits ts [] = []
hits ts (e ∷ es) = if matches e.0 ts then e.1 ∷ hits ts es else hits ts es

pub hits-append :
    (ts : List Bytes) (es fs : List Entry) → hits ts (es ++ fs) ≡ hits ts es ++ hits ts fs
unfolding hits
hits-append ts [] fs = refl
hits-append ts (e ∷ es) fs = ground (arith, hits-append ts es fs)

pub hits-here_nil : (vs : List Value) → hits [] (map here vs) ≡ vs
unfolding hits matches
hits-here_nil [] = refl
hits-here_nil (v ∷ vs) = ap (◌∷◌ v) (hits-here_nil vs)

pub hits-here_cons :
    (t : Bytes) (ts : List Bytes) (vs : List Value) → hits (t ∷ ts) (map here vs) ≡ []
unfolding hits matches
hits-here_cons t ts [] = refl
hits-here_cons t ts (v ∷ vs) = hits-here_cons t ts vs

-- Below "#" only the subscribers of that node itself match.
hits-mwc-here : (ts : List Bytes) (vs : List Value) → hits ts (map (under mwc) (map here vs)) ≡ vs
unfolding hits
hits-mwc-here ts [] = refl
hits-mwc-here ts (v ∷ vs) = rw (matches-mwc [] ts) (ap (◌∷◌ v) (hits-mwc-here ts vs))

hits-mwc-under :
    (ts : List Bytes) (k : Bytes) (es : List Entry)
    → hits ts (map (under mwc) (map (under k) es)) ≡ []
unfolding hits
hits-mwc-under ts k [] = refl
hits-mwc-under ts k (e ∷ es) = rw (matches-mwc (k ∷ e.0) ts) (hits-mwc-under ts k es)

hits-mwc_below :
    (ts : List Bytes) (ks : Nodes Subs) → hits ts (map (under mwc) (entries_below ks)) ≡ []
unfolding leaves
hits-mwc_below ts nil = unfold hits in refl
hits-mwc_below ts (cons k n ks) =
    rw (map-append, hits-append, hits-mwc-under) (hits-mwc_below ts ks)

pub hits-mwc :
    (ts : List Bytes) (n : Snode) → hits ts (map (under mwc) (entries n)) ≡ (payload n).subs
unfolding leaves
hits-mwc ts (node p ks) = rw (map-append, hits-append, hits-mwc-here, hits-mwc_below, append-nil)

-- Below another level the topic has to go on.
pub hits-end : (k : Bytes) (es : List Entry) → k ≢ mwc → hits [] (map (under k) es) ≡ []
unfolding hits matches
hits-end k [] h = refl
hits-end k (e ∷ es) h = rw (if_neg (Bytes-discrete k mwc) h) (hits-end k es h)

pub hits-step :
    (k t : Bytes) (ts : List Bytes) (es : List Entry)
    → k ≢ mwc
    → hits (t ∷ ts) (map (under k) es)
      ≡ ite (Bytes-discrete k swc) (hits ts es) (ite (Bytes-discrete k t) (hits ts es) [])
unfolding hits matches
hits-step k t ts [] h = ground arith
hits-step k t ts (e ∷ es) h = ground (arith, hits-step k t ts es h)

-- What a search adds to the slices.
unfoldable pub found : ℕ → List Value → Found → Found
found qos vs out = record { subs = out.subs ++ vs; qoss = out.qoss ++ map (λ _. qos) vs }

pub found-nil : (qos : ℕ) (out : Found) → found qos [] out ≡ out
unfolding found
found-nil qos out = rw (append-nil out.subs, append-nil out.qoss)

pub found-found :
    (qos : ℕ) (vs ws : List Value) (out : Found)
    → found qos ws (found qos vs out) ≡ found qos (vs ++ ws) out
unfolding found
found-found qos vs ws out = simp (append_assoc, map-append)

pub match_qos-eq-found :
    (qos : ℕ) (vs : List Value) (out : Found) → match_qos qos vs out ≡ found qos vs out
unfolding match_qos found
match_qos-eq-found qos [] out = sym (found-nil qos out)
match_qos-eq-found qos (v ∷ vs) out = match_qos-eq-found qos vs _ ∙ found-found qos (v ∷ []) vs out
