-- ===== src/Topics/Rnode/Levels.antt =====
-- The methods of `rnode` over the levels of a topic in place of the topic.
use mathlib.Core.Path.{fun_ext}
use thoth.Base.{
  ℕ, zero, suc, ◌≡◌, refl, ap, inl, inr, none, some, List, [], ◌∷◌, Bytes, Option-cases,
}
use thoth.Packets.{PublishPacket}
use thoth.Topics.Level.{no_topic_found, next_topic_level, Result-cases}
use thoth.Topics.Levels.{Levels, done, bad, level, levels}
use thoth.Topics.Trie.{node, find, put}
use thoth.Topics.Rnode.{
  Rnode, Outcome, find_or_new, removed_below, append_msg, rmatch_level, rinsert_or_update, rremove,
  rmatch,
}

unfoldable pub insert_at : Levels → PublishPacket → Rnode → Outcome Rnode
insert_at done msg (node m ks) = (node (some msg) ks, none)
insert_at (bad e) msg n = (n, some e)
insert_at (level l path) msg (node m ks) =
    let (n, r) = insert_at path msg (find_or_new (find l ks)) in (node m (put l n ks), r)

unfoldable pub remove_from : Levels → Rnode → Outcome Rnode
remove_from done (node m ks) = (node none ks, none)
remove_from (bad e) n = (n, some e)
remove_from (level l path) (node m ks) = elim (find l ks) [
  | none ↦ (node m ks, some no_topic_found)
  | some n ↦ removed_below l m ks (remove_from path n)
]

unfoldable pub match_at : Levels → Rnode → List PublishPacket → Outcome (List PublishPacket)
match_at done (node m ks) msgs = (append_msg m msgs, none)
match_at (bad e) n msgs = (msgs, some e)
match_at (level l path) (node m ks) msgs = rmatch_level (match_at path) l (node m ks) msgs

pub rinsert-eq-insert_at :
    (f : ℕ) (topic : Bytes) (msg : PublishPacket) (n : Rnode)
    → rinsert_or_update f topic msg n ≡ insert_at (levels f topic) msg n
unfolding rinsert_or_update insert_at levels
rinsert-eq-insert_at zero topic msg (node m ks) = refl
rinsert-eq-insert_at (suc f) [] msg (node m ks) = refl
rinsert-eq-insert_at (suc f) (c ∷ topic) msg (node m ks) =
    elim (Result-cases (next_topic_level (c ∷ topic))) [
      | inl (e, h) ↦ rw (h, insert_at, rinsert_or_update, levels)
      | inr (l, rem, h) ↦
          rw (h, insert_at, rinsert_or_update, levels)
            (ap (λ o. (node m (put l o.0 ks), o.1))
              (rinsert-eq-insert_at f rem msg (find_or_new (find l ks))))
    ]

pub rremove-eq-remove_from :
    (f : ℕ) (topic : Bytes) (n : Rnode) → rremove f topic n ≡ remove_from (levels f topic) n
unfolding rremove remove_from levels
rremove-eq-remove_from zero topic (node m ks) = refl
rremove-eq-remove_from (suc f) [] (node m ks) = refl
rremove-eq-remove_from (suc f) (c ∷ topic) (node m ks) =
    elim (Result-cases (next_topic_level (c ∷ topic))) [
      | inl (e, h) ↦ rw (h, remove_from, rremove, levels)
      | inr (l, rem, h) ↦
          rw (h, remove_from, rremove, levels)
            (elim (Option-cases (find l ks)) [
              | inl g ↦ rw g
              | inr (n, g) ↦ rw g (ap (removed_below l m ks) (rremove-eq-remove_from f rem n))
            ])
    ]

pub rmatch-eq-match_at :
    (f : ℕ) (topic : Bytes) (n : Rnode) (msgs : List PublishPacket)
    → rmatch f topic n msgs ≡ match_at (levels f topic) n msgs
unfolding rmatch match_at levels
rmatch-eq-match_at zero topic (node m ks) msgs = refl
rmatch-eq-match_at (suc f) [] (node m ks) msgs = refl
rmatch-eq-match_at (suc f) (c ∷ topic) (node m ks) msgs =
    elim (Result-cases (next_topic_level (c ∷ topic))) [
      | inl (e, h) ↦ rw (h, match_at, rmatch, levels)
      | inr (l, rem, h) ↦
          rw (h, match_at, rmatch, levels)
            (ap (λ next. rmatch_level next l (node m ks) msgs)
              (fun_ext λ n. fun_ext λ o. rmatch-eq-match_at f rem n o))
    ]
