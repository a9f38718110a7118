-- ===== src/Broker/Groups.antt =====
-- `groupCompile` of broker/client.go, `^\$share/([0-9a-zA-Z_-]+)/(.*)$`, and its two groups. The bytes of a
-- group's name have no "/" among them, so that there is one way to match; "." is every byte but a newline.
use thoth.Base.{
  ℕ, ◌≡◌, ◌≢◌, ◌↔◌, refl, sym, subst, ap, ◌∙◌, arith, Bool, true, false, ◌&&◌, ◌||◌, Option, none,
  some, [], ◌∷◌, ◌++◌, Bytes, leb, ◌==◌, if◌then◌else◌,
}

abbrev pub is_group_char : ℕ → Bool
is_group_char c =
    (leb 48 c && leb c 57)
    || (leb 65 c && leb c 90)
    || (leb 97 c && leb c 122)
    || c == 95
    || c == 45

abbrev pub slash : ℕ
slash = 47

abbrev pub longer : ℕ → Option (Bytes × Bytes) → Option (Bytes × Bytes)
longer c none = none
longer c (some (name, rest)) = some (c ∷ name, rest)

-- The bytes of a name up to a "/", and what follows it.
unfoldable pub split_group : Bytes → Option (Bytes × Bytes)
split_group [] = none
split_group (c ∷ s) =
    let rest = split_group s in
    if is_group_char c then longer c rest else if c == slash then some ([], s) else none

abbrev pub has_newline : Bytes → Bool
has_newline [] = false
has_newline (c ∷ s) = if c == 10 then true else has_newline s

abbrev pub matched : Option (Bytes × Bytes) → Option (Bytes × Bytes)
matched none = none
matched (some ([], topic)) = none
matched (some (c ∷ name, topic)) = if has_newline topic then none else some (c ∷ name, topic)

-- `FindStringSubmatch` on what follows "$share/".
abbrev pub find_group : Bytes → Option (Bytes × Bytes)
find_group s = matched (split_group s)

abbrev pub AreGroupChars : Bytes → Type 0
AreGroupChars [] = Unit
AreGroupChars (c ∷ s) = (is_group_char c ≡ true) × AreGroupChars s

-- A name that is not empty, a "/", and a topic without a newline.
abbrev pub IsGroup : Bytes → Bytes → Bytes → Type 0
IsGroup s name topic =
    (s ≡ name ++ slash ∷ topic) × AreGroupChars name × (name ≢ []) × (has_newline topic ≡ false)

split_group-name :
    (name topic : Bytes)
    → AreGroupChars name
    → split_group (name ++ slash ∷ topic) ≡ some (name, topic)
unfolding split_group
split_group-name [] topic h = refl
split_group-name (c ∷ name) topic (e, h) =
    subst
      (λ x.
        (if x
          then longer c (split_group (name ++ slash ∷ topic))
          else if c == slash
          then some ([], name ++ slash ∷ topic)
          else none)
        ≡ some (c ∷ name, topic))
      (sym e) (ap (longer c) (split_group-name name topic h))

IsSplit : Bytes → Option (Bytes × Bytes) → Type 0
IsSplit s none = Unit
IsSplit s (some (name, topic)) = (s ≡ name ++ slash ∷ topic) × AreGroupChars name

longer-IsSplit :
    (c : ℕ) (s : Bytes) (o : Option (Bytes × Bytes))
    → is_group_char c ≡ true
    → IsSplit s o
    → IsSplit (c ∷ s) (longer c o)
unfolding IsSplit
longer-IsSplit c s none e h = tt
longer-IsSplit c s (some (name, topic)) e (k, h) = (ap (◌∷◌ c) k, (e, h))

split_group-IsSplit : (s : Bytes) → IsSplit s (split_group s)
unfolding split_group IsSplit
split_group-IsSplit [] = tt
split_group-IsSplit (c ∷ s) =
    of_tests (is_group_char c) (c == slash) refl refl (split_group-IsSplit s)
  where
    slash_byte : (c : ℕ) → (c == slash) ≡ true → c ≡ slash
    slash_byte c e = ground arith

    of_tests :
        (x y : Bool)
        → is_group_char c ≡ x
        → (c == slash) ≡ y
        → IsSplit s (split_group s)
        → IsSplit (c ∷ s) (if x then longer c (split_group s) else if y then some ([], s) else none)
    of_tests true y e k h = longer-IsSplit c s (split_group s) e h
    of_tests false true e k h = (ap (λ d. d ∷ s) (slash_byte c k), tt)
    of_tests false false e k h = tt

found_IsGroup :
    (s name topic : Bytes) (o : Option (Bytes × Bytes))
    → IsSplit s o
    → matched o ≡ some (name, topic)
    → IsGroup s name topic
unfolding IsSplit
found_IsGroup s name topic none h e = cc
found_IsGroup s name topic (some ([], rest)) h e = cc
found_IsGroup s name topic (some (c ∷ n, rest)) (k, h) e = of_newline (has_newline rest) refl e
  where
    of_newline :
        (x : Bool)
        → has_newline rest ≡ x
        → ◌≡◌ {A = Option (Bytes × Bytes)}
            (if x then none else some (c ∷ n, rest))
            (some (name, topic))
        → IsGroup s name topic
    of_newline true l f = cc
    of_newline false l f =
        subst (λ p. IsGroup s p.0 p.1) (same (c ∷ n, rest) (name, topic) f) (k, h, (λ m. cc), l)
      where
        same : (p q : Bytes × Bytes) → some p ≡ some q → p ≡ q
        same p q g = cc

find_group-IsGroup :
    (s name topic : Bytes) → find_group s ≡ some (name, topic) → IsGroup s name topic
find_group-IsGroup s name topic e =
    found_IsGroup s name topic (split_group s) (split_group-IsSplit s) e

IsGroup-find_group :
    (s name topic : Bytes) → IsGroup s name topic → find_group s ≡ some (name, topic)
IsGroup-find_group s [] topic (e, a, n, l) = absurd (n refl)
IsGroup-find_group s (c ∷ name) topic (e, a, n, l) =
    ap find_group e
    ∙ ap matched (split_group-name (c ∷ name) topic a)
    ∙ ap (λ x. if x then none else some (c ∷ name, topic)) l

-- The groups are found exactly where the text is a name, a "/" and a topic, and they are these.
pub find_group-iff-IsGroup :
    (s name topic : Bytes) → (find_group s ≡ some (name, topic)) ↔ IsGroup s name topic
find_group-iff-IsGroup s name topic =
    (find_group-IsGroup s name topic, IsGroup-find_group s name topic)
