-- ===== src/Topics/Level/Splits.antt =====
-- What `nextTopicLevel` splits a topic into, described without its loop.
use native.Mathlib.Nat.{zero-add}
use native.Mathlib.Numerals.{add-one}
use thoth.Base.{
  ℕ, suc, ◌+◌, ◌<◌, ◌↔◌, ◌≡◌, ◌≢◌, refl, sym, ap, subst, ◌∙◌, ◌⊎◌, inl, inr, Bool, true, false, not,
  ◌&&◌, [], ◌∷◌, ◌++◌, append-nil, append_assoc, arith, Bytes, length, take, length-append,
  take-append, Bool-cases, ◌==◌,
}
use thoth.Topics.Level.{
  ok, err, mwc, swc, sep, State, state_chr, state_mwc, state_swc, state_sep, state_sys, Round, go,
  return, round, scan, next_topic_level,
}

-- No separator and no wildcard.
abbrev pub plain_char : ℕ → Bool
plain_char c = not (c == sep) && not (c == b'#') && not (c == b'+')

abbrev pub plain : Bytes → Bool
plain [] = true
plain (c ∷ cs) = plain_char c && plain cs

plain-append :
    (xs : Bytes) (c : ℕ) → plain xs ≡ true → plain_char c ≡ true → plain (xs ++ c ∷ []) ≡ true
plain-append [] c p q = ground arith
plain-append (x ∷ xs) c p q = ground (arith, plain-append xs c)

-- A topic is one level, or a level before a separator, or it begins with a separator, which is
-- read as the level "+".
pub data Splits (topic level rest : Bytes) : Type 0 where
  last :
      topic ≡ level
      → rest ≡ []
      → (plain level ≡ true) ⊎ (level ≡ swc) ⊎ (level ≡ mwc)
      → Splits topic level rest
  before :
      topic ≡ level ++ sep ∷ rest
      → (plain level ≡ true) ⊎ (level ≡ swc)
      → level ≢ []
      → Splits topic level rest
  leading : topic ≡ sep ∷ rest → level ≡ swc → Splits topic level rest

-- What the loop has read when it is in a state.
abbrev Seen : State → Bytes → Type 0
Seen state_chr pre = plain pre ≡ true
Seen state_mwc pre = pre ≡ mwc
Seen state_swc pre = pre ≡ swc
Seen _ pre = ⊥

abbrev RoundFits : Bytes → Bytes → Round → Type 0
RoundFits topic pre (go s) = Seen s pre
RoundFits topic pre (return (ok (level, rest))) = Splits topic level rest
RoundFits topic pre (return (err e)) = Unit

eq_of_test : (c d : ℕ) → (c == d) ≡ true → c ≡ d
eq_of_test c d h = ground arith

suc-ne-zero : (n : ℕ) → (suc n == 0) ≡ false
suc-ne-zero n = ground arith

-- A separator behind a level of at least one character.
separator :
    (topic : Bytes) (x : ℕ) (xs : Bytes) (c : ℕ) (rest : Bytes)
    → (plain (x ∷ xs) ≡ true) ⊎ (x ∷ xs ≡ swc)
    → (c == sep) ≡ true
    → topic ≡ x ∷ xs ++ c ∷ rest
    → Splits topic (take (length (x ∷ xs)) topic) rest
separator topic x xs c rest h t e =
    rw (e, take-append (x ∷ xs) (c ∷ rest))
      (before (ap (λ d. x ∷ xs ++ d ∷ rest) (eq_of_test c sep t)) h (λ p. cc))

round-chr-nil :
    (topic : Bytes) (c : ℕ) (rest : Bytes)
    → topic ≡ c ∷ rest
    → RoundFits topic (c ∷ []) (round topic state_chr 0 c rest)
unfolding round
round-chr-nil topic c rest e = elim (Bool-cases (c == sep)) [
  | inl t ↦ rw t (leading (rw (← eq_of_test c sep t) e) refl)
  | inr t ↦ rw t (elim (Bool-cases (c == b'#')) [
    | inl u ↦ rw u (rw (eq_of_test c b'#' u))
    | inr u ↦ rw u (elim (Bool-cases (c == b'+')) [
      | inl v ↦ rw v (rw (eq_of_test c b'+' v))
      | inr v ↦ rw v (rw (t, u, v))
    ])
  ])
]

round-chr-cons :
    (topic : Bytes) (x : ℕ) (xs : Bytes) (c : ℕ) (rest : Bytes)
    → plain (x ∷ xs) ≡ true
    → topic ≡ x ∷ xs ++ c ∷ rest
    → RoundFits topic (x ∷ xs ++ c ∷ []) (round topic state_chr (length (x ∷ xs)) c rest)
unfolding round
round-chr-cons topic x xs c rest h e = elim (Bool-cases (c == sep)) [
  | inl t ↦ rw (t, suc-ne-zero (length xs)) (separator topic x xs c rest (inl h) t e)
  | inr t ↦ rw t (elim (Bool-cases (c == b'#')) [
    | inl u ↦ rw (u, suc-ne-zero (length xs)) tt
    | inr u ↦ rw u (elim (Bool-cases (c == b'+')) [
      | inl v ↦ rw (v, suc-ne-zero (length xs)) tt
      | inr v ↦ rw v (plain-append (x ∷ xs) c h (rw (t, u, v)))
    ])
  ])
]

round-RoundFits :
    (topic pre : Bytes) (s : State) (c : ℕ) (rest : Bytes)
    → Seen s pre
    → topic ≡ pre ++ c ∷ rest
    → RoundFits topic (pre ++ c ∷ []) (round topic s (length pre) c rest)
unfolding round
round-RoundFits topic [] state_chr c rest h e = round-chr-nil topic c rest e
round-RoundFits topic (x ∷ xs) state_chr c rest h e = round-chr-cons topic x xs c rest h e
round-RoundFits topic pre state_mwc c rest h e = rw h (ground arith)
round-RoundFits topic pre state_swc c rest h e = elim (Bool-cases (c == sep)) [
  | inl t ↦ rw (t, h) (separator topic b'+' [] c rest (inr refl) t (e ∙ ap (λ p. p ++ c ∷ rest) h))
  | inr t ↦ rw (t, h) (ground arith)
]
round-RoundFits topic pre state_sep c rest h e = absurd h
round-RoundFits topic pre state_sys c rest h e = absurd h

Seen-level : (s : State) (pre : Bytes) → Seen s pre → (plain pre ≡ true) ⊎ (pre ≡ swc) ⊎ (pre ≡ mwc)
Seen-level state_chr pre h = inl h
Seen-level state_mwc pre h = inr (inr h)
Seen-level state_swc pre h = inr (inl h)
Seen-level state_sep pre h = absurd h
Seen-level state_sys pre h = absurd h

ok-injective {ℓ} : {A : Type ℓ} {x y : A} → ok x ≡ ok y → x ≡ y
ok-injective h = cc

positive : (xs : Bytes) → xs ≢ [] → 0 < length xs
positive [] h = absurd (h refl)
positive (x ∷ xs) h = omega arith

scan-Splits :
    (topic pre r : Bytes) (s : State) {level rest : Bytes}
    → Seen s pre
    → topic ≡ pre ++ r
    → scan topic s (length pre) r ≡ ok (level, rest)
    → Splits topic level rest
unfolding scan
scan-Splits topic pre [] s {level} {rest} h e eq = last (cc eq) (cc eq) (
    subst (λ l. (plain l ≡ true) ⊎ (l ≡ swc) ⊎ (l ≡ mwc)) (cc (eq, e, append-nil pre))
      (Seen-level s pre h))
scan-Splits topic pre (c ∷ r) s {level} {rest} h e eq =
    go_on
      (λ s' f q.
        scan-Splits topic (pre ++ c ∷ []) r s' f (e ∙ sym (append_assoc pre (c ∷ []) r))
          (rw (length-append pre (c ∷ []), add-one) q))
      (round topic s (length pre) c r) (round-RoundFits topic pre s c r h e) eq
  where
    go_on :
        ((s' : State)
          → Seen s' (pre ++ c ∷ [])
          → scan topic s' (suc (length pre)) r ≡ ok (level, rest)
          → Splits topic level rest)
        → (o : Round) → RoundFits topic (pre ++ c ∷ []) o
        → elim o [ go s' ↦ scan topic s' (suc (length pre)) r | return x ↦ x ] ≡ ok (level, rest)
        → Splits topic level rest
    go_on ih (go s') f q = ih s' f q
    go_on ih (return (ok (l, m))) f q =
        subst (λ (p : Bytes × Bytes). Splits topic p.0 p.1) (ok-injective q) f
    go_on ih (return (err x)) f q = cc

-- Every split that succeeds is of one of the three forms.
pub next_topic_level-Splits :
    (topic : Bytes) {level rest : Bytes}
    → next_topic_level topic ≡ ok (level, rest)
    → Splits topic level rest
unfolding next_topic_level
next_topic_level-Splits topic h = scan-Splits topic [] topic state_chr refl refl h

-- So the rest is shorter than a topic that is not empty.
pub length-next_topic_level :
    (c : ℕ) (topic : Bytes) {level rest : Bytes}
    → next_topic_level (c ∷ topic) ≡ ok (level, rest)
    → length rest < suc (length topic)
length-next_topic_level c topic {level} {rest} h = shorter (next_topic_level-Splits (c ∷ topic) h)
  where
    shorter : Splits (c ∷ topic) level rest → length rest < suc (length topic)
    shorter (last e r o) = rw r (omega arith)
    shorter (before e o n) =
        omega (arith, ap length e, length-append level (sep ∷ rest), positive level n)
    shorter (leading e o) = omega (arith, ap length e)

round-plain :
    (topic : Bytes) (i c : ℕ) (rest : Bytes)
    → plain_char c ≡ true
    → round topic state_chr i c rest ≡ go state_chr
unfolding round
round-plain topic i c rest h = ground arith

scan-plain :
    (topic xs tail : Bytes) (i : ℕ)
    → plain xs ≡ true
    → scan topic state_chr i (xs ++ tail) ≡ scan topic state_chr (i + length xs) tail
unfolding scan
scan-plain topic [] tail i h = ap (λ n. scan topic state_chr n tail) (omega arith)
scan-plain topic (x ∷ xs) tail i h =
    rw (round-plain topic i x (xs ++ tail) (ground arith), scan)
      (scan-plain topic xs tail (suc i) (ground arith)
        ∙ ap (λ n. scan topic state_chr n tail) (omega arith))

-- The topic is one level.
next_topic_level-last :
    (level : Bytes)
    → (plain level ≡ true) ⊎ (level ≡ swc) ⊎ (level ≡ mwc)
    → next_topic_level level ≡ ok (level, [])
unfolding next_topic_level scan round
next_topic_level-last level (inl h) =
    ap (scan level state_chr 0) (sym (append-nil level)) ∙ scan-plain level level [] 0 h
next_topic_level-last level (inr (inl h)) = rw h
next_topic_level-last level (inr (inr h)) = rw h

scan-separator :
    (topic : Bytes) (i : ℕ) (rest : Bytes)
    → scan topic state_chr (suc i) (sep ∷ rest) ≡ ok (take (suc i) topic, rest)
unfolding scan round
scan-separator topic i rest = rw (suc-ne-zero i, scan, round)

next_topic_level-before :
    (x : ℕ) (xs rest : Bytes)
    → (plain (x ∷ xs) ≡ true) ⊎ (x ∷ xs ≡ swc)
    → next_topic_level (x ∷ xs ++ sep ∷ rest) ≡ ok (x ∷ xs, rest)
unfolding next_topic_level scan round
next_topic_level-before x xs rest (inl h) =
    scan-plain (x ∷ xs ++ sep ∷ rest) (x ∷ xs) (sep ∷ rest) 0 h
    ∙ rw zero-add (scan-separator (x ∷ xs ++ sep ∷ rest) (length xs) rest)
    ∙ ap (λ l. ok (l, rest)) (take-append (x ∷ xs) (sep ∷ rest))
next_topic_level-before x xs rest (inr h) =
    subst (λ l. next_topic_level (l ++ sep ∷ rest) ≡ ok (l, rest)) (sym h) refl

Splits-next_topic_level :
    {topic level rest : Bytes} → Splits topic level rest → next_topic_level topic ≡ ok (level, rest)
unfolding next_topic_level scan round
Splits-next_topic_level (last e r o) = rw (e, r) (next_topic_level-last _ o)
Splits-next_topic_level {level = []} (before e o n) = absurd (n refl)
Splits-next_topic_level {level = x ∷ xs} {rest} (before e o n) =
    rw e (next_topic_level-before x xs rest o)
Splits-next_topic_level (leading e o) = rw (e, o)

-- `nextTopicLevel` returns a level and a rest exactly when the topic splits into them: it is one
-- level, or the level with a separator and the rest behind it, or it begins with a separator.
pub next_topic_level-iff-Splits :
    (topic level rest : Bytes)
    → (next_topic_level topic ≡ ok (level, rest)) ↔ Splits topic level rest
next_topic_level-iff-Splits topic level rest =
    (next_topic_level-Splits topic, Splits-next_topic_level)
