-- ===== src/Utf8.antt =====
-- `utf8.ValidString` of Go's standard library, which broker/client.go checks fields with: bytes are read one
-- after the other, with the number of bytes that a character still wants and the range of the next one.
use thoth.Base.{
  ℕ, zero, suc, ◌+◌, ◌/◌, ◌%◌, ◌≡◌, ◌≤◌, ◌<◌, ◌⊎◌, inl, inr, refl, ap, ◌∙◌, arith, Bool, true,
  false, ◌&&◌, Option, none, some, List, [], ◌∷◌, ◌++◌, Bytes, leb, ◌==◌, if◌then◌else◌, Bool-cases,
}

-- What the first byte of a character asks for.
abbrev pub lead : ℕ → Option (ℕ × ℕ × ℕ)
lead c =
    if leb c 0x7F
    then some (0, 0x80, 0xBF)
    else if leb c 0xC1
    then none
    else if leb c 0xDF
    then some (1, 0x80, 0xBF)
    else if c == 0xE0
    then some (2, 0xA0, 0xBF)
    else if c == 0xED
    then some (2, 0x80, 0x9F)
    else if leb c 0xEF
    then some (2, 0x80, 0xBF)
    else if c == 0xF0
    then some (3, 0x90, 0xBF)
    else if leb c 0xF3
    then some (3, 0x80, 0xBF)
    else if c == 0xF4
    then some (3, 0x80, 0x8F)
    else none

unfoldable pub valid_from : ℕ → ℕ → ℕ → Bytes → Bool
valid_from zero low high [] = true
valid_from (suc n) low high [] = false
valid_from zero low high (c ∷ s) = elim (lead c) [
  | none ↦ false
  | some (n, l, h) ↦ valid_from n l h s
]
valid_from (suc n) low high (c ∷ s) =
    if leb low c && leb c high then valid_from n 0x80 0xBF s else false

abbrev pub valid_string : Bytes → Bool
valid_string s = valid_from 0 0 0 s

lead_two : (c : ℕ) → 0xC2 ≤ c → c ≤ 0xDF → lead c ≡ some (1, 0x80, 0xBF)
lead_two c l h = ground arith

lead_three : (c : ℕ) → 0xE0 < c → c < 0xED → lead c ≡ some (2, 0x80, 0xBF)
lead_three c l h = ground arith

lead_last : (c : ℕ) → 0xEE ≤ c → c ≤ 0xEF → lead c ≡ some (2, 0x80, 0xBF)
lead_last c l h = ground arith

lead_four : (c : ℕ) → 0xF1 ≤ c → c ≤ 0xF3 → lead c ≡ some (3, 0x80, 0xBF)
lead_four c l h = ground arith

lead_one : (c : ℕ) → c ≤ 0x7F → lead c ≡ some (0, 0x80, 0xBF)
lead_one c h = ground arith

-- The bytes of a code point.
abbrev pub encode : ℕ → Bytes
encode r =
    if leb r 0x7F
    then r ∷ []
    else if leb r 0x7FF
    then (0xC0 + r / 64) ∷ (0x80 + r % 64) ∷ []
    else if leb r 0xFFFF
    then (0xE0 + r / 4096) ∷ (0x80 + (r / 64) % 64) ∷ (0x80 + r % 64) ∷ []
    else (0xF0 + r / 262144)
      ∷ (0x80 + (r / 4096) % 64)
      ∷ (0x80 + (r / 64) % 64)
      ∷ (0x80 + r % 64)
      ∷ []

-- A code point that is no surrogate.
abbrev pub IsScalar : ℕ → Type 0
IsScalar r = (r < 0xD800) ⊎ ((0xE000 ≤ r) × (r < 0x110000))

first_byte :
    (low high c n l h : ℕ) (s : Bytes)
    → lead c ≡ some (n, l, h)
    → valid_from 0 low high (c ∷ s) ≡ valid_from n l h s
unfolding valid_from
first_byte low high c n l h s e =
    ap (λ o. elim o [ none ↦ false | some (n, l, h) ↦ valid_from n l h s ]) e

next_byte :
    (n low high c : ℕ) (s : Bytes)
    → low ≤ c
    → c ≤ high
    → valid_from (suc n) low high (c ∷ s) ≡ valid_from n 0x80 0xBF s
unfolding valid_from
next_byte n low high c s l h =
    ap (λ x. if x then valid_from n 0x80 0xBF s else false) (in_range low high c l h)
  where
    in_range : (low high c : ℕ) → low ≤ c → c ≤ high → (leb low c && leb c high) ≡ true
    in_range low high c l h = ground arith

any_range : (low high : ℕ) (s : Bytes) → valid_from 0 low high s ≡ valid_string s
unfolding valid_from
any_range low high [] = refl
any_range low high (c ∷ s) = refl

tail_byte :
    (n r low high : ℕ) (s : Bytes)
    → low ≤ 0x80
    → 0xBF ≤ high
    → valid_from (suc n) low high ((0x80 + r % 64) ∷ s) ≡ valid_from n 0x80 0xBF s
tail_byte n r low high s l h =
    next_byte n low high (0x80 + r % 64) s (omega (arith, l)) (omega (arith, h))

two_bytes :
    (r : ℕ) (s : Bytes)
    → 0x7F < r
    → r ≤ 0x7FF
    → valid_string ((0xC0 + r / 64) ∷ (0x80 + r % 64) ∷ s) ≡ valid_string s
two_bytes r s l h =
    first_byte 0 0 (0xC0 + r / 64) 1 0x80 0xBF _
      (lead_two (0xC0 + r / 64) (omega (arith, l)) (omega (arith, h)))
    ∙ tail_byte 0 r 0x80 0xBF s (omega arith) (omega arith)
    ∙ any_range 0x80 0xBF s

-- The last two bytes.
two_more :
    (r low high : ℕ) (s : Bytes) (c : ℕ)
    → low ≤ c
    → c ≤ high
    → valid_from 2 low high (c ∷ (0x80 + r % 64) ∷ s) ≡ valid_string s
two_more r low high s c l h =
    next_byte 1 low high c ((0x80 + r % 64) ∷ s) l h
    ∙ tail_byte 0 r 0x80 0xBF s (omega arith) (omega arith)
    ∙ any_range 0x80 0xBF s

at_most : (a b : ℕ) → leb a b ≡ true → a ≤ b
at_most a b e = ground arith

above : (a b : ℕ) → leb a b ≡ false → b < a
above a b e = ground arith

three_bytes :
    (r : ℕ) (s : Bytes)
    → 0x7FF < r
    → r ≤ 0xFFFF
    → IsScalar r
    → valid_string ((0xE0 + r / 4096) ∷ (0x80 + (r / 64) % 64) ∷ (0x80 + r % 64) ∷ s)
      ≡ valid_string s
three_bytes r s l h k = elim (Bool-cases (leb r 0xFFF)) [
  | inl e ↦
      first_byte 0 0 (0xE0 + r / 4096) 2 0xA0 0xBF _ (ap lead (low_lead (at_most r 0xFFF e)))
      ∙ two_more r 0xA0 0xBF s (0x80 + (r / 64) % 64) (omega (arith, at_most r 0xFFF e, l))
          (omega arith)
  | inr e ↦ elim (Bool-cases (leb r 0xCFFF)) [
    | inl f ↦
        first_byte 0 0 (0xE0 + r / 4096) 2 0x80 0xBF _ (
          lead_three (0xE0 + r / 4096) (omega (arith, above r 0xFFF e))
            (omega (arith, at_most r 0xCFFF f)))
        ∙ two_more r 0x80 0xBF s (0x80 + (r / 64) % 64) (omega arith) (omega arith)
    | inr f ↦ elim k [
      | inl g ↦
          first_byte 0 0 (0xE0 + r / 4096) 2 0x80 0x9F _
            (ap lead (surrogate_lead (above r 0xCFFF f) g))
          ∙ two_more r 0x80 0x9F s (0x80 + (r / 64) % 64) (omega arith)
              (omega (arith, above r 0xCFFF f, g))
      | inr (g, g') ↦
          first_byte 0 0 (0xE0 + r / 4096) 2 0x80 0xBF _
            (lead_last (0xE0 + r / 4096) (omega (arith, g)) (omega (arith, h)))
          ∙ two_more r 0x80 0xBF s (0x80 + (r / 64) % 64) (omega arith) (omega arith)
    ]
  ]
]
  where
    low_lead : r ≤ 0xFFF → 0xE0 + r / 4096 ≡ 0xE0
    low_lead e = omega (arith, e)

    surrogate_lead : 0xCFFF < r → r < 0xD800 → 0xE0 + r / 4096 ≡ 0xED
    surrogate_lead e g = omega (arith, e, g)

four_bytes :
    (r : ℕ) (s : Bytes)
    → 0xFFFF < r
    → r < 0x110000
    → valid_string (
        (0xF0 + r / 262144)
        ∷ (0x80 + (r / 4096) % 64)
        ∷ (0x80 + (r / 64) % 64)
        ∷ (0x80 + r % 64)
        ∷ s)
      ≡ valid_string s
four_bytes r s l h = elim (Bool-cases (leb r 0x3FFFF)) [
  | inl e ↦
      first_byte 0 0 (0xF0 + r / 262144) 3 0x90 0xBF _ (ap lead (low_lead (at_most r 0x3FFFF e)))
      ∙ next_byte 2 0x90 0xBF (0x80 + (r / 4096) % 64) _ (omega (arith, at_most r 0x3FFFF e, l))
          (omega arith)
      ∙ last
  | inr e ↦ elim (Bool-cases (leb r 0xFFFFF)) [
    | inl f ↦
        first_byte 0 0 (0xF0 + r / 262144) 3 0x80 0xBF _ (
          lead_four (0xF0 + r / 262144) (omega (arith, above r 0x3FFFF e))
            (omega (arith, at_most r 0xFFFFF f)))
        ∙ next_byte 2 0x80 0xBF (0x80 + (r / 4096) % 64) _ (omega arith) (omega arith)
        ∙ last
    | inr f ↦
        first_byte 0 0 (0xF0 + r / 262144) 3 0x80 0x8F _ (ap lead (high_lead (above r 0xFFFFF f)))
        ∙ next_byte 2 0x80 0x8F (0x80 + (r / 4096) % 64) _ (omega arith)
            (omega (arith, above r 0xFFFFF f, h))
        ∙ last
  ]
]
  where
    low_lead : r ≤ 0x3FFFF → 0xF0 + r / 262144 ≡ 0xF0
    low_lead e = omega (arith, e)

    high_lead : 0xFFFFF < r → 0xF0 + r / 262144 ≡ 0xF4
    high_lead e = omega (arith, e, h)

    last : valid_from 2 0x80 0xBF ((0x80 + (r / 64) % 64) ∷ (0x80 + r % 64) ∷ s) ≡ valid_string s
    last = two_more r 0x80 0xBF s (0x80 + (r / 64) % 64) (omega arith) (omega arith)

below_limit : (r : ℕ) → IsScalar r → r < 0x110000
below_limit r (inl h) = omega (arith, h)
below_limit r (inr (h, k)) = k

valid_string-encode :
    (r : ℕ) (s : Bytes) → IsScalar r → valid_string (encode r ++ s) ≡ valid_string s
valid_string-encode r s k = of_tests (leb r 0x7F) (leb r 0x7FF) (leb r 0xFFFF) refl refl refl
  where
    of_tests :
        (x y z : Bool)
        → leb r 0x7F ≡ x
        → leb r 0x7FF ≡ y
        → leb r 0xFFFF ≡ z
        → valid_string (
            (if x
              then r ∷ []
              else if y
              then (0xC0 + r / 64) ∷ (0x80 + r % 64) ∷ []
              else if z
              then (0xE0 + r / 4096) ∷ (0x80 + (r / 64) % 64) ∷ (0x80 + r % 64) ∷ []
              else (0xF0 + r / 262144)
                ∷ (0x80 + (r / 4096) % 64)
                ∷ (0x80 + (r / 64) % 64)
                ∷ (0x80 + r % 64)
                ∷ [])
            ++ s)
          ≡ valid_string s
    of_tests true y z e f g =
        first_byte 0 0 r 0 0x80 0xBF s (lead_one r (at_most r 0x7F e)) ∙ any_range 0x80 0xBF s
    of_tests false true z e f g = two_bytes r s (above r 0x7F e) (at_most r 0x7FF f)
    of_tests false false true e f g = three_bytes r s (above r 0x7FF f) (at_most r 0xFFFF g) k
    of_tests false false false e f g = four_bytes r s (above r 0xFFFF g) (below_limit r k)

abbrev pub AllScalar : List ℕ → Type 0
AllScalar [] = Unit
AllScalar (r ∷ rs) = IsScalar r × AllScalar rs

abbrev pub encode_all : List ℕ → Bytes
encode_all [] = []
encode_all (r ∷ rs) = encode r ++ encode_all rs

-- The encoding of any text is valid.
pub valid_string-encode_all : (rs : List ℕ) → AllScalar rs → valid_string (encode_all rs) ≡ true
unfolding valid_from
valid_string-encode_all [] h = refl
valid_string-encode_all (r ∷ rs) (k, h) =
    valid_string-encode r (encode_all rs) k ∙ valid_string-encode_all rs h
