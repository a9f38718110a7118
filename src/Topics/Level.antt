-- ===== src/Topics/Level.antt =====
-- `nextTopicLevel` of broker/persistence/topics/memtopics.go, and the errors of that package.
pub mod Splits
use thoth.Base.{
  ℕ, suc, ◌≡◌, refl, ◌⊎◌, inl, inr, Bool, true, false, ◌||◌, [], ◌∷◌, Bytes, take, ◌==◌,
  if◌then◌else◌,
}

-- The errors that the package builds with `fmt.Errorf`, one constructor for each message.
-- `out_of_fuel` is not an error of the program.
pub data TopicError : Type 0 where
  multi_level_not_last hash_not_whole plus_not_whole wildcard_not_whole : TopicError
  no_topic_found no_topic_for_subscriber nil_subscriber : TopicError
  invalid_qos : ℕ → TopicError
  out_of_fuel : TopicError

pub data Result {ℓ} (A : Type ℓ) : Type ℓ where
  ok : A → Result A
  err : TopicError → Result A

-- The wildcards and the separator.
abbrev pub mwc : Bytes
mwc = b'#' ∷ []

abbrev pub swc : Bytes
swc = b'+' ∷ []

abbrev pub sep : ℕ
sep = b'/'

pub data State : Type 0 where
  state_chr state_mwc state_swc state_sep state_sys : State

abbrev pub is_mwc : State → Bool
is_mwc state_mwc = true
is_mwc _ = false

abbrev pub is_swc : State → Bool
is_swc state_swc = true
is_swc _ = false

-- What one round of the loop does: go on in a state, or return.
pub data Round : Type 0 where
  go : State → Round
  return : Result (Bytes × Bytes) → Round

-- The body of the loop at index `i`, character `c`; `rest` is `topic[i+1:]`.
unfoldable pub round : Bytes → State → ℕ → ℕ → Bytes → Round
round topic s i c rest =
    if c == sep
    then (if is_mwc s
        then return (err multi_level_not_last)
        else if i == 0
        then return (ok (swc, rest))
        else return (ok (take i topic, rest)))
    else if c == b'#'
    then (if i == 0 then go state_mwc else return (err hash_not_whole))
    else if c == b'+'
    then (if i == 0 then go state_swc else return (err plus_not_whole))
    else if is_mwc s || is_swc s
    then return (err wildcard_not_whole)
    else go state_chr

-- The loop from index `i` on; the last argument is `topic[i:]`.
unfoldable pub scan : Bytes → State → ℕ → Bytes → Result (Bytes × Bytes)
unfolding round
scan topic s i [] = ok (topic, [])
scan topic s i (c ∷ rest) = elim (round topic s i c rest) [
  | go s' ↦ scan topic s' (suc i) rest
  | return r ↦ r
]

-- The next level of a topic and the levels that remain.
unfoldable pub next_topic_level : Bytes → Result (Bytes × Bytes)
unfolding scan
next_topic_level topic = scan topic state_chr 0 topic

pub Result-cases :
    (r : Result (Bytes × Bytes))
    → ((e : TopicError) × (r ≡ err e)) ⊎ ((level : Bytes) × (rest : Bytes) × (r ≡ ok (level, rest)))
Result-cases (err e) = inl (e, refl)
Result-cases (ok (level, rest)) = inr (level, rest, refl)
