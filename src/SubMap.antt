-- ===== src/SubMap.antt =====
-- `AddSubMap` and `DelSubMap` of utils/utils.go: how often a router subscribed to a topic, as a
-- map from topics to uint64.
use thoth.Base.{
  ℕ, ◌+◌, ◌-◌, ◌%◌, ◌<◌, ◌≡◌, ◌≤◌, refl, sym, subst, ap, ◌∙◌, inl, inr, Option-cases, arith, Option,
  none, some, List, Bytes, Bytes-discrete, ltb, if◌then◌else◌,
}
use thoth.Assoc.{lookup, insert, lookup-insert_self}

abbrev pub SubMap : Type 0
SubMap = List (Bytes × ℕ)

abbrev pub word : ℕ
word = 0x10000000000000000

unfoldable pub add_sub_map : Bytes → SubMap → SubMap
add_sub_map topic m = elim (lookup Bytes-discrete topic m) [
  | none ↦ insert Bytes-discrete topic 1 m
  | some sub_num ↦ insert Bytes-discrete topic ((sub_num + 1) % word) m
]

-- The number that is left is returned; the last subscription is not taken out of the map.
unfoldable pub del_sub_map : Bytes → SubMap → SubMap × ℕ
del_sub_map topic m = elim (lookup Bytes-discrete topic m) [
  | none ↦ (insert Bytes-discrete topic 0 m, 0)
  | some sub_num ↦
      if ltb 1 sub_num then (insert Bytes-discrete topic (sub_num - 1) m, sub_num - 1) else (m, 0)
]

abbrev pub of_option : Option ℕ → ℕ
of_option none = 0
of_option (some n) = n

-- The number of a topic; a missing key reads as 0.
abbrev pub number : Bytes → SubMap → ℕ
number topic m = of_option (lookup Bytes-discrete topic m)

-- A deletion returned n, which is what the map now has for the topic.
abbrev pub IsBack : Bytes → ℕ → SubMap × ℕ → Type 0
IsBack topic n (m, left) = (left ≡ n) × (number topic m ≡ n)

-- A deletion returned 0, but the map still has 1 for the topic, and counts 2 after one addition.
abbrev pub IsStale : Bytes → SubMap × ℕ → Type 0
IsStale topic (m, left) =
    (left ≡ 0) × (number topic m ≡ 1) × (number topic (add_sub_map topic m) ≡ 2)

-- `AddSubMap` adds one to the number of its topic, modulo 2^64.
pub number-add_sub_map :
    (topic : Bytes) (m : SubMap) → number topic (add_sub_map topic m) ≡ (number topic m + 1) % word
unfolding add_sub_map
number-add_sub_map topic m = elim (Option-cases (lookup Bytes-discrete topic m)) [
  | inl e ↦ rw (e, add_sub_map, lookup-insert_self Bytes-discrete topic 1 m) refl
  | inr (n, e) ↦
      rw (e, add_sub_map, lookup-insert_self Bytes-discrete topic ((n + 1) % word) m) refl
]

add_sub_map-lookup :
    (topic : Bytes) (m : SubMap)
    → lookup Bytes-discrete topic (add_sub_map topic m) ≡ some ((number topic m + 1) % word)
unfolding add_sub_map
add_sub_map-lookup topic m = elim (Option-cases (lookup Bytes-discrete topic m)) [
  | inl e ↦ rw (e, add_sub_map, lookup-insert_self Bytes-discrete topic 1 m) refl
  | inr (n, e) ↦
      rw (e, add_sub_map, lookup-insert_self Bytes-discrete topic ((n + 1) % word) m) refl
]

del_sub_map-many :
    (topic : Bytes) (n : ℕ) (m : SubMap)
    → lookup Bytes-discrete topic m ≡ some n
    → 1 < n
    → del_sub_map topic m ≡ (insert Bytes-discrete topic (n - 1) m, n - 1)
unfolding del_sub_map
del_sub_map-many topic n m e l = ground arith

del_sub_map-one :
    (topic : Bytes) (n : ℕ) (m : SubMap)
    → lookup Bytes-discrete topic m ≡ some n
    → n ≤ 1
    → del_sub_map topic m ≡ (m, 0)
unfolding del_sub_map
del_sub_map-one topic n m e l = ground arith

mod_small : (n : ℕ) → n < word → n % word ≡ n
mod_small n l = omega arith

-- While the number is below 2^64 - 1 and not 0, `DelSubMap` after `AddSubMap` returns the number
-- as it was, and that is the number of the topic again.
pub del_sub_map-add_sub_map :
    (topic : Bytes) (m : SubMap)
    → 0 < number topic m
    → number topic m + 1 < word
    → IsBack topic (number topic m) (del_sub_map topic (add_sub_map topic m))
del_sub_map-add_sub_map topic m p l =
    subst (IsBack topic (number topic m))
      (sym (del_sub_map-many topic (number topic m + 1) (add_sub_map topic m) stored (omega arith)))
      (
        omega arith,
        ap of_option (
              lookup-insert_self Bytes-discrete topic (number topic m + 1 - 1)
                (add_sub_map topic m))
            ∙ omega arith,
      )
  where
    stored : lookup Bytes-discrete topic (add_sub_map topic m) ≡ some (number topic m + 1)
    stored = add_sub_map-lookup topic m ∙ ap some (mod_small (number topic m + 1) l)

-- A topic that was not in the map, added and deleted again, is left with the number 1, although
-- `DelSubMap` returned 0: added once more it counts 2.
pub sub_map-IsStale :
    (topic : Bytes) (m : SubMap)
    → lookup Bytes-discrete topic m ≡ none
    → IsStale topic (del_sub_map topic (add_sub_map topic m))
sub_map-IsStale topic m h =
    subst (IsStale topic) (sym (del_sub_map-one topic 1 (add_sub_map topic m) stored (omega arith)))
      (
        refl,
        ap of_option stored,
        number-add_sub_map topic (add_sub_map topic m) ∙ ap (λ n. (of_option n + 1) % word) stored,
      )
  where
    stored : lookup Bytes-discrete topic (add_sub_map topic m) ≡ some 1
    stored = add_sub_map-lookup topic m ∙ ap (λ n. some ((of_option n + 1) % word)) h
