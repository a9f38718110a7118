-- ===== src/Topics/Matching.antt =====
-- The matching of the levels of a topic by those of a filter, the levels being what `nextTopicLevel` splits
-- them into. No code of the program is this function.
use thoth.Base.{
  ◌≡◌, ◌≢◌, ◌↔◌, refl, sym, subst, Bool, true, false, List, [], ◌∷◌, arith, Bytes, Bytes-discrete,
  ite,
}
use thoth.Topics.Level.{mwc, swc}

-- The matching of a topic by the path of a subscription: "#" at the end matches any levels, none
-- included; "+" matches one level; any other level matches itself.
pub data Matches : List Bytes → List Bytes → Type 0 where
  end : Matches [] []
  rest : (ts : List Bytes) → Matches (mwc ∷ []) ts
  one : (t : Bytes) {ks ts : List Bytes} → Matches ks ts → Matches (swc ∷ ks) (t ∷ ts)
  same : (k : Bytes) {ks ts : List Bytes} → k ≢ mwc → Matches ks ts → Matches (k ∷ ks) (k ∷ ts)

abbrev pub is_nil : List Bytes → Bool
is_nil [] = true
is_nil (k ∷ ks) = false

pub swc≢mwc : swc ≢ mwc
swc≢mwc h = ground arith

-- The same as a test.
unfoldable pub matches : List Bytes → List Bytes → Bool
matches [] [] = true
matches [] (t ∷ ts) = false
matches (k ∷ ks) [] = ite (Bytes-discrete k mwc) (is_nil ks) false
matches (k ∷ ks) (t ∷ ts) =
    ite (Bytes-discrete k mwc) (is_nil ks)
      (ite (Bytes-discrete k swc) (matches ks ts) (ite (Bytes-discrete k t) (matches ks ts) false))

pub matches-mwc : (p ts : List Bytes) → matches (mwc ∷ p) ts ≡ is_nil p
unfolding matches
matches-mwc p [] = ground arith
matches-mwc p (t ∷ ts) = ground arith

matches_sound : (ks ts : List Bytes) → matches ks ts ≡ true → Matches ks ts
unfolding matches
matches_sound [] [] h = end
matches_sound [] (t ∷ ts) h = cc
matches_sound (k ∷ []) [] h = elim (Bytes-discrete k mwc) [
  | yes p ↦ subst (λ l. Matches (l ∷ []) []) (sym p) (rest [])
  | no p ↦ ground arith
]
matches_sound (k ∷ j ∷ ks) [] h = ground arith
matches_sound (k ∷ ks) (t ∷ ts) h = elim (Bytes-discrete k mwc) [
  | yes p ↦ all_levels ks (ground arith) p
  | no p ↦ elim (Bytes-discrete k swc) [
    | yes q ↦
        subst (λ l. Matches (l ∷ ks) (t ∷ ts)) (sym q) (one t (matches_sound ks ts (ground arith)))
    | no q ↦ elim (Bytes-discrete k t) [
      | yes r ↦
          subst (λ l. Matches (k ∷ ks) (l ∷ ts)) r (same k p (matches_sound ks ts (ground arith)))
      | no r ↦ ground arith
    ]
  ]
]
  where
    all_levels : (js : List Bytes) → is_nil js ≡ true → k ≡ mwc → Matches (k ∷ js) (t ∷ ts)
    all_levels [] e p = subst (λ l. Matches (l ∷ []) (t ∷ ts)) (sym p) (rest (t ∷ ts))
    all_levels (j ∷ js) e p = cc

Matches-test : {ks ts : List Bytes} → Matches ks ts → matches ks ts ≡ true
unfolding matches
Matches-test end = refl
Matches-test (rest ts) = matches-mwc [] ts
Matches-test (one t {ks} {ts} m) = ground (arith, Matches-test m, swc≢mwc)
Matches-test (same k {ks} {ts} h m) = ground (arith, Matches-test m)

-- The test decides the relation.
pub matches_iff : (ks ts : List Bytes) → (matches ks ts ≡ true) ↔ Matches ks ts
matches_iff ks ts = (matches_sound ks ts, Matches-test)
