-- ===== src/Topics/Rnode/Answers.antt =====
-- The retained messages with their topics, and those that a path matches.
use thoth.Base.{
  ◌≡◌, ◌≢◌, refl, ap, none, some, List, [], ◌∷◌, ◌++◌, map, arith, Bytes, Bytes-discrete, ite,
  if◌then◌else◌,
}
use thoth.Packets.{PublishPacket}
use thoth.Topics.Level.{mwc, swc}
use thoth.Topics.Matching.{matches, matches-mwc, swc≢mwc}
use thoth.Topics.Trie.{Nodes, nil, cons}
use thoth.Topics.Trie.Entries.{here, under, leaves, leaves_below}
use thoth.Topics.Trie.Entries
use thoth.Topics.Rnode.{Msg, Rnode}

abbrev pub Entry : Type 0
Entry = Entries.Entry PublishPacket

abbrev pub msg_of : Msg → List PublishPacket
msg_of none = []
msg_of (some m) = m ∷ []

-- The retained messages with the levels of their topics.
abbrev pub entries : Rnode → List Entry
entries = leaves msg_of

abbrev pub entries_below : Nodes Msg → List Entry
entries_below = leaves_below msg_of

-- The messages of the entries whose topic the path matches.
unfoldable pub answers : List Bytes → List Entry → List PublishPacket
answers path [] = []
answers path (e ∷ es) = if matches path e.0 then e.1 ∷ answers path es else answers path es

pub answers-append :
    (path : List Bytes) (es fs : List Entry)
    → answers path (es ++ fs) ≡ answers path es ++ answers path fs
unfolding answers
answers-append path [] fs = refl
answers-append path (e ∷ es) fs = ground (arith, answers-append path es fs)

pub answers-mwc : (es : List Entry) → answers (mwc ∷ []) es ≡ map (λ e. e.1) es
unfolding answers
answers-mwc [] = refl
answers-mwc (e ∷ es) = rw (matches-mwc [] e.0) (ap (◌∷◌ e.1) (answers-mwc es))

pub answers-nil_here : (m : Msg) → answers [] (map here (msg_of m)) ≡ msg_of m
unfolding answers matches
answers-nil_here none = refl
answers-nil_here (some m) = refl

pub answers-nil_under : (k : Bytes) (es : List Entry) → answers [] (map (under k) es) ≡ []
unfolding answers matches
answers-nil_under k [] = refl
answers-nil_under k (e ∷ es) = answers-nil_under k es

pub answers-nil_below : (ks : Nodes Msg) → answers [] (entries_below ks) ≡ []
unfolding leaves
answers-nil_below nil = unfold answers in refl
answers-nil_below (cons k n ks) =
    rw
      (
        answers-append [] (map (under k) (entries n)) (entries_below ks),
        answers-nil_under k (entries n),
      )
      (answers-nil_below ks)

pub answers-here :
    (l : Bytes) (path : List Bytes) (m : Msg)
    → l ≢ mwc
    → answers (l ∷ path) (map here (msg_of m)) ≡ []
unfolding answers matches
answers-here l path none h = refl
answers-here l path (some m) h = ground arith

pub answers-swc :
    (path : List Bytes) (k : Bytes) (es : List Entry)
    → answers (swc ∷ path) (map (under k) es) ≡ answers path es
unfolding answers matches
answers-swc path k [] = refl
answers-swc path k (e ∷ es) = ground (arith, answers-swc path k es, swc≢mwc)

pub answers-level :
    (l k : Bytes) (path : List Bytes) (es : List Entry)
    → l ≢ mwc
    → l ≢ swc
    → answers (l ∷ path) (map (under k) es) ≡ ite (Bytes-discrete l k) (answers path es) []
unfolding answers matches
answers-level l k path [] h g = ground arith
answers-level l k path (e ∷ es) h g = ground (arith, answers-level l k path es)
