-- ===== src/Topics/Levels/InTime.antt =====
-- Fuel beyond a topic's length does not run out while its levels are split.
use thoth.Base.{
  ℕ, zero, suc, ◌<◌, ◌≡◌, ◌≢◌, refl, ap, ◌∙◌, inl, inr, Option, some, [], ◌∷◌, arith, Bytes, length,
}
use thoth.Topics.Level.{
  TopicError, out_of_fuel, err, State, Round, go, return, round, scan, next_topic_level,
  Result-cases,
}
use thoth.Topics.Level.Splits.{length-next_topic_level}
use thoth.Topics.Levels.{Levels, done, bad, level, levels}

-- An error, or none, other than that of the fuel.
abbrev pub IsProper : Option TopicError → Type 0
IsProper r = r ≢ some out_of_fuel

abbrev pub IsInTime : Levels → Type 0
IsInTime done = Unit
IsInTime (bad e) = e ≢ out_of_fuel
IsInTime (level l path) = IsInTime path

round-ne-out_of_fuel :
    (topic : Bytes) (s : State) (i c : ℕ) (r : Bytes)
    → round topic s i c r ≢ return (err out_of_fuel)
unfolding round
round-ne-out_of_fuel topic s i c r h = ground arith

scan-ne-out_of_fuel :
    (topic : Bytes) (s : State) (i : ℕ) (r : Bytes) → scan topic s i r ≢ err out_of_fuel
unfolding scan
scan-ne-out_of_fuel topic s i [] h = cc
scan-ne-out_of_fuel topic s i (c ∷ r) h =
    on_round (λ s'. scan-ne-out_of_fuel topic s' (suc i) r) (round topic s i c r) refl h
  where
    on_round :
        ((s' : State) → scan topic s' (suc i) r ≢ err out_of_fuel)
        → (o : Round) → round topic s i c r ≡ o
        → elim o [ go s' ↦ scan topic s' (suc i) r | return x ↦ x ] ≢ err out_of_fuel
    on_round ih (go s') e q = ih s' q
    on_round ih (return x) e q = round-ne-out_of_fuel topic s i c r (e ∙ ap return q)

next_topic_level-InTime :
    (topic : Bytes) {e : TopicError} → next_topic_level topic ≡ err e → e ≢ out_of_fuel
unfolding next_topic_level
next_topic_level-InTime topic h p = scan-ne-out_of_fuel topic _ 0 topic (h ∙ ap err p)

pub levels-IsInTime : (f : ℕ) (topic : Bytes) → length topic < f → IsInTime (levels f topic)
unfolding levels
levels-IsInTime zero topic h = absurd (omega arith)
levels-IsInTime (suc f) [] h = tt
levels-IsInTime (suc f) (c ∷ topic) h = elim (Result-cases (next_topic_level (c ∷ topic))) [
  | inl (e, p) ↦ rw (p, levels) (next_topic_level-InTime (c ∷ topic) p)
  | inr (l, rem, p) ↦
      let shorter = length-next_topic_level c topic p in
      rw (p, levels) (levels-IsInTime f rem (omega arith))
]
