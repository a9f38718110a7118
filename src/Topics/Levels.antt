-- ===== src/Topics/Levels.antt =====
-- The levels of a topic, all split at once by `nextTopicLevel`. The methods of both trees are
-- shown to depend on the topic only through them.
pub mod InTime
use thoth.Base.{
  ℕ, zero, suc, ◌<◌, ◌≡◌, refl, ap, sym, ◌∙◌, subst, true, inl, inr, List, [], ◌∷◌, arith, Bytes,
  length,
}
use thoth.Topics.Level.{TopicError, out_of_fuel, ok, err, mwc, next_topic_level, Result-cases}
use thoth.Topics.Level.Splits.{
  Splits, last, before, leading, plain, next_topic_level-Splits, length-next_topic_level,
}
use thoth.Topics.Matching.{swc≢mwc}

-- The levels of a topic up to its end, or up to the error that `nextTopicLevel` finds.
pub data Levels : Type 0 where
  done : Levels
  bad : TopicError → Levels
  level : Bytes → Levels → Levels

unfoldable pub levels : ℕ → Bytes → Levels
levels zero topic = bad out_of_fuel
levels (suc f) [] = done
levels (suc f) (c ∷ topic) = elim (next_topic_level (c ∷ topic)) [
  | err e ↦ bad e
  | ok (l, rem) ↦ level l (levels f rem)
]

-- The path as the levels of a topic.
abbrev pub of_path : List Bytes → Levels
of_path [] = done
of_path (l ∷ path) = level l (of_path path)

-- Fuel beyond the topic's length is enough: more of it gives the same levels.
pub levels-enough :
    (f g : ℕ) (topic : Bytes)
    → length topic < f
    → length topic < g
    → levels f topic ≡ levels g topic
unfolding levels
levels-enough zero g topic h k = absurd (omega arith)
levels-enough (suc f) zero topic h k = absurd (omega arith)
levels-enough (suc f) (suc g) [] h k = refl
levels-enough (suc f) (suc g) (c ∷ topic) h k = elim (Result-cases (next_topic_level (c ∷ topic))) [
  | inl (e, p) ↦ rw (p, levels)
  | inr (l, rem, p) ↦
      let shorter = length-next_topic_level c topic p in
      rw (p, levels) (ap (level l) (levels-enough f g rem (omega arith) (omega arith)))
]

levels-err :
    (f c : ℕ) (topic : Bytes) {e : TopicError}
    → next_topic_level (c ∷ topic) ≡ err e
    → levels (suc f) (c ∷ topic) ≡ bad e
unfolding levels
levels-err f c topic p = rw (p, levels)

levels-ok :
    (f c : ℕ) (topic : Bytes) {l rem : Bytes}
    → next_topic_level (c ∷ topic) ≡ ok (l, rem)
    → levels (suc f) (c ∷ topic) ≡ level l (levels f rem)
unfolding levels
levels-ok f c topic p = rw (p, levels)

levels-nil : (f : ℕ) (path : List Bytes) → levels f [] ≡ of_path path → path ≡ []
unfolding levels
levels-nil f [] h = refl
levels-nil zero (l ∷ path) h = cc
levels-nil (suc f) (l ∷ path) h = cc

-- "#" stands at the end only.
abbrev pub IsFilter : List Bytes → Type 0
IsFilter [] = Unit
IsFilter (l ∷ path) = (l ≡ mwc → path ≡ []) × IsFilter path

level_head : {l k : Bytes} {p q : Levels} → level l p ≡ level k q → l ≡ k
level_head h = cc

level_tail : {l k : Bytes} {p q : Levels} → level l p ≡ level k q → p ≡ q
level_tail h = cc

mwc-last : (topic : Bytes) {l rem : Bytes} → Splits topic l rem → l ≡ mwc → rem ≡ []
mwc-last topic (last e r o) h = r
mwc-last topic (before e (inl o) n) h = absurd (not_plain (subst (λ l. plain l ≡ true) h o))
  where
    not_plain : plain mwc ≡ true → ⊥
    not_plain q = cc
mwc-last topic (before e (inr o) n) h = absurd (swc≢mwc (sym o ∙ h))
mwc-last topic (leading e o) h = absurd (swc≢mwc (sym o ∙ h))

-- `nextTopicLevel` makes sure of that.
pub levels-IsFilter :
    (f : ℕ) (topic : Bytes) (path : List Bytes) → levels f topic ≡ of_path path → IsFilter path
unfolding levels
levels-IsFilter zero topic [] h = tt
levels-IsFilter zero topic (l ∷ path) h = cc
levels-IsFilter (suc f) [] [] h = tt
levels-IsFilter (suc f) [] (l ∷ path) h = cc
levels-IsFilter (suc f) (c ∷ topic) [] h = tt
levels-IsFilter (suc f) (c ∷ topic) (l ∷ path) h =
    elim (Result-cases (next_topic_level (c ∷ topic))) [
      | inl (e, p) ↦ cc (levels-err f c topic p)
      | inr (k, rem, p) ↦
          let split = sym (levels-ok f c topic p) ∙ h in
          (
            λ q. levels-nil f path (
                subst (λ r. levels f r ≡ of_path path)
                  (mwc-last (c ∷ topic) (next_topic_level-Splits (c ∷ topic) p)
                    (level_head split ∙ q))
                  (level_tail split)),
            levels-IsFilter f rem path (level_tail split),
          )
    ]
