-- ===== src/All.antt =====
-- Lists, heaps and maps all of whose elements have a property.
use thoth.Base.{ℕ, zero, suc, ◌≡◌, subst, some, List, [], ◌∷◌, ◌++◌, ite, take, drop}
use thoth.Assoc.{lookup, insert, remove}
use thoth.Heap.{at_address, modify}

module _ {A : Type 0} where
  abbrev pub All : (A → Type 0) → List A → Type 0
  All P [] = Unit
  All P (x ∷ xs) = P x × All P xs

  pub All-append : (P : A → Type 0) (xs ys : List A) → All P xs → All P ys → All P (xs ++ ys)
  All-append P [] ys h k = k
  All-append P (x ∷ xs) ys h k = (h.0, All-append P xs ys h.1 k)

  pub All-map : (P Q : A → Type 0) → ((x : A) → P x → Q x) → (xs : List A) → All P xs → All Q xs
  All-map P Q f [] h = tt
  All-map P Q f (x ∷ xs) h = (f x h.0, All-map P Q f xs h.1)

  some_eq : (y x : A) → some y ≡ some x → y ≡ x
  some_eq y x e = cc

  pub All-at_address :
      (P : A → Type 0) (a : ℕ) (h : List A) (x : A) → All P h → at_address a h ≡ some x → P x
  All-at_address P a [] x w e = cc
  All-at_address P zero (y ∷ h) x w e = subst P (some_eq y x e) w.0
  All-at_address P (suc a) (y ∷ h) x w e = All-at_address P a h x w.1 e

  pub All-modify :
      (P : A → Type 0) (a : ℕ) (f : A → A) (h : List A)
      → ((x : A) → P x → P (f x))
      → All P h
      → All P (modify a f h)
  unfolding modify
  All-modify P a f [] k w = tt
  All-modify P zero f (x ∷ h) k w = (k x w.0, w.1)
  All-modify P (suc a) f (x ∷ h) k w = (w.0, All-modify P a f h k w.1)

  pub All-take : (P : A → Type 0) (i : ℕ) (xs : List A) → All P xs → All P (take i xs)
  All-take P zero xs h = tt
  All-take P (suc i) [] h = tt
  All-take P (suc i) (x ∷ xs) h = (h.0, All-take P i xs h.1)

  pub All-drop : (P : A → Type 0) (i : ℕ) (xs : List A) → All P xs → All P (drop i xs)
  All-drop P zero xs h = h
  All-drop P (suc i) [] h = tt
  All-drop P (suc i) (x ∷ xs) h = All-drop P i xs h.1

-- The values of a map have a property.
module _ {K V : Type 0} (same : Discrete K) (P : V → Type 0) where
  abbrev pub Values : List (K × V) → Type 0
  Values m = All (λ e. P e.1) m

  pub Values-insert :
      (k : K) (v : V) (m : List (K × V)) → P v → Values m → Values (insert same k v m)
  unfolding insert
  Values-insert k v [] p h = (p, tt)
  Values-insert k v ((j, w) ∷ m) p h =
      elim (same j k) as (λ d. Values (ite d ((j, v) ∷ m) ((j, w) ∷ insert same k v m))) [
        | yes e ↦ (p, h.1)
        | no e ↦ (h.0, Values-insert k v m p h.1)
      ]

  pub Values-remove : (k : K) (m : List (K × V)) → Values m → Values (remove same k m)
  unfolding remove
  Values-remove k [] h = tt
  Values-remove k ((j, w) ∷ m) h =
      elim (same j k) as (λ d. Values (ite d (remove same k m) ((j, w) ∷ remove same k m))) [
        | yes e ↦ Values-remove k m h.1
        | no e ↦ (h.0, Values-remove k m h.1)
      ]

  pub Values-lookup : (k : K) (v : V) (m : List (K × V)) → Values m → lookup same k m ≡ some v → P v
  unfolding lookup
  Values-lookup k v [] h e = cc
  Values-lookup k v ((j, w) ∷ m) h e = found (same j k) (Values-lookup k v m h.1) e
    where
      found :
          (d : Dec (j ≡ k))
          → (lookup same k m ≡ some v → P v)
          → ite d (some w) (lookup same k m) ≡ some v
          → P v
      found (yes p) ih e = All-at_address P 0 (w ∷ []) v (h.0, tt) e
      found (no p) ih e = ih e
