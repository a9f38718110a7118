-- ===== src/Topics/Snode/Levels.antt =====
-- The methods of `snode` over the levels of a topic, all split at once, in place of the topic.
use mathlib.Core.Path.{fun_ext}
use thoth.Base.{ℕ, zero, suc, ◌≡◌, refl, ap, inl, inr, none, some, [], ◌∷◌, Bytes, Option-cases}
use thoth.Topics.Level.{no_topic_found, mwc, next_topic_level, Result-cases}
use thoth.Topics.Trie.{node, put, find}
use thoth.Topics.Value.{Value}
use thoth.Topics.Levels.{Levels, done, bad, level, levels}
use thoth.Topics.Snode.{
  Snode, Outcome, Found, insert_here, find_or_new, remove_here, removed_below, match_node,
  match_found, smatch_nodes, sinsert, sremove, smatch,
}

unfoldable pub insert_at : Levels → ℕ → Value → Snode → Outcome Snode
insert_at done qos sub (node p ks) = (node (insert_here qos sub p) ks, none)
insert_at (bad e) qos sub n = (n, some e)
insert_at (level l path) qos sub (node p ks) =
    let (n, r) = insert_at path qos sub (find_or_new (find l ks)) in (node p (put l n ks), r)

unfoldable pub remove_from : Levels → Value → Snode → Outcome Snode
remove_from done sub (node p ks) = let (q, r) = remove_here sub p in (node q ks, r)
remove_from (bad e) sub n = (n, some e)
remove_from (level l path) sub (node p ks) = elim (find l ks) [
  | none ↦ (node p ks, some no_topic_found)
  | some n ↦ removed_below l p ks (remove_from path sub n)
]

unfoldable pub match_at : Levels → ℕ → Snode → Found → Outcome Found
match_at done qos (node p ks) out =
    (match_found qos (find mwc ks) (match_node qos (node p ks) out), none)
match_at (bad e) qos n out = (out, some e)
match_at (level l path) qos (node p ks) out = smatch_nodes (match_at path qos) qos l ks out

pub sinsert-eq-insert_at :
    (f : ℕ) (topic : Bytes) (qos : ℕ) (sub : Value) (n : Snode)
    → sinsert f topic qos sub n ≡ insert_at (levels f topic) qos sub n
unfolding sinsert insert_at levels
sinsert-eq-insert_at zero topic qos sub (node p ks) = refl
sinsert-eq-insert_at (suc f) [] qos sub (node p ks) = refl
sinsert-eq-insert_at (suc f) (c ∷ topic) qos sub (node p ks) =
    elim (Result-cases (next_topic_level (c ∷ topic))) [
      | inl (e, h) ↦ rw (h, insert_at, sinsert, levels)
      | inr (l, rem, h) ↦
          rw (h, insert_at, sinsert, levels)
            (rw (sinsert-eq-insert_at f rem qos sub (find_or_new (find l ks))))
    ]

pub sremove-eq-remove_from :
    (f : ℕ) (topic : Bytes) (sub : Value) (n : Snode)
    → sremove f topic sub n ≡ remove_from (levels f topic) sub n
unfolding sremove remove_from levels
sremove-eq-remove_from zero topic sub (node p ks) = refl
sremove-eq-remove_from (suc f) [] sub (node p ks) = refl
sremove-eq-remove_from (suc f) (c ∷ topic) sub (node p ks) =
    elim (Result-cases (next_topic_level (c ∷ topic))) [
      | inl (e, h) ↦ rw (h, remove_from, sremove, levels)
      | inr (l, rem, h) ↦
          rw (h, remove_from, sremove, levels)
            (elim (Option-cases (find l ks)) [
              | inl g ↦ rw g
              | inr (n, g) ↦ rw g (ap (removed_below l p ks) (sremove-eq-remove_from f rem sub n))
            ])
    ]

pub smatch-eq-match_at :
    (f : ℕ) (topic : Bytes) (qos : ℕ) (n : Snode) (out : Found)
    → smatch f topic qos n out ≡ match_at (levels f topic) qos n out
unfolding smatch match_at levels
smatch-eq-match_at zero topic qos (node p ks) out = refl
smatch-eq-match_at (suc f) [] qos (node p ks) out = refl
smatch-eq-match_at (suc f) (c ∷ topic) qos (node p ks) out =
    elim (Result-cases (next_topic_level (c ∷ topic))) [
      | inl (e, h) ↦ rw (h, match_at, smatch, levels)
      | inr (l, rem, h) ↦
          rw (h, match_at, smatch, levels)
            (ap (λ next. smatch_nodes next qos l ks out)
              (fun_ext λ n. fun_ext λ o. smatch-eq-match_at f rem qos n o))
    ]
