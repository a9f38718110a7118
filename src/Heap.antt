-- ===== src/Heap.antt =====
-- Objects behind pointers: a heap is a list, an address the place of an object in it. Nothing is
-- ever taken out of a heap, as Go keeps what a pointer leads to.
use thoth.Base.{
  ℕ, zero, suc, ◌<◌, ◌≡◌, ◌≢◌, refl, sym, subst, ap, arith, inl, inr, ◌⊎◌, Option, none, some, List,
  [], ◌∷◌, ◌++◌, length, set,
}

module _ {ℓ} {A : Type ℓ} where
  -- The object at an address.
  abbrev pub at_address : ℕ → List A → Option A
  at_address a [] = none
  at_address zero (x ∷ h) = some x
  at_address (suc a) (x ∷ h) = at_address a h

  -- A change of the object at an address.
  unfoldable pub modify : ℕ → (A → A) → List A → List A
  modify a f [] = []
  modify zero f (x ∷ h) = f x ∷ h
  modify (suc a) f (x ∷ h) = x ∷ modify a f h

  pub at_address-append : (h : List A) (x : A) → at_address (length h) (h ++ x ∷ []) ≡ some x
  at_address-append [] x = refl
  at_address-append (y ∷ h) x = at_address-append h x

  pub at_address-append_old :
      (a : ℕ) (h : List A) (x : A) → a < length h → at_address a (h ++ x ∷ []) ≡ at_address a h
  at_address-append_old a [] x l = absurd (omega arith)
  at_address-append_old zero (y ∷ h) x l = refl
  at_address-append_old (suc a) (y ∷ h) x l = at_address-append_old a h x (omega arith)

  pub at_address-some : (a : ℕ) (h : List A) (x : A) → at_address a h ≡ some x → a < length h
  at_address-some a [] x e = cc
  at_address-some zero (y ∷ h) x e = omega arith
  at_address-some (suc a) (y ∷ h) x e = omega (arith, at_address-some a h x e)

  pub at_address-lt : (a : ℕ) (h : List A) → a < length h → (x : A) × (at_address a h ≡ some x)
  at_address-lt a [] l = absurd (omega arith)
  at_address-lt zero (y ∷ h) l = (y, refl)
  at_address-lt (suc a) (y ∷ h) l = at_address-lt a h (omega arith)

  pub set-append : (h : List A) (x y : A) → set (h ++ x ∷ []) (length h) y ≡ h ++ y ∷ []
  set-append [] x y = refl
  set-append (z ∷ h) x y = ap (◌∷◌ z) (set-append h x y)

  pub length-modify : (a : ℕ) (f : A → A) (h : List A) → length (modify a f h) ≡ length h
  unfolding modify
  length-modify a f [] = refl
  length-modify zero f (x ∷ h) = refl
  length-modify (suc a) f (x ∷ h) = ap suc (length-modify a f h)

  pub at_address-modify_self :
      (a : ℕ) (f : A → A) (h : List A) (x : A)
      → at_address a h ≡ some x
      → at_address a (modify a f h) ≡ some (f x)
  unfolding modify
  at_address-modify_self a f [] x e = cc
  at_address-modify_self zero f (y ∷ h) x e = cc
  at_address-modify_self (suc a) f (y ∷ h) x e = at_address-modify_self a f h x e

  pub at_address-modify_ne :
      (a b : ℕ) (f : A → A) (h : List A) → a ≢ b → at_address b (modify a f h) ≡ at_address b h
  unfolding modify
  at_address-modify_ne a b f [] n = refl
  at_address-modify_ne zero zero f (x ∷ h) n = absurd (n refl)
  at_address-modify_ne zero (suc b) f (x ∷ h) n = refl
  at_address-modify_ne (suc a) zero f (x ∷ h) n = refl
  at_address-modify_ne (suc a) (suc b) f (x ∷ h) n = at_address-modify_ne a b f h (omega arith)

  -- A view of an object that the change does not touch sees no change.
  pub at_address-modify_view {κ} :
      {C : Type κ} (g : Option A → C) (a b : ℕ) (f : A → A) (h : List A)
      → ((x : A) → g (some (f x)) ≡ g (some x))
      → g (at_address b (modify a f h)) ≡ g (at_address b h)
  unfolding modify
  at_address-modify_view g a b f [] k = refl
  at_address-modify_view g zero zero f (x ∷ h) k = k x
  at_address-modify_view g zero (suc b) f (x ∷ h) k = refl
  at_address-modify_view g (suc a) zero f (x ∷ h) k = refl
  at_address-modify_view g (suc a) (suc b) f (x ∷ h) k = at_address-modify_view g a b f h k

  some_eq : (x y : A) → some x ≡ some y → x ≡ y
  some_eq x y e = cc

  -- Two changes that agree on the object at the address.
  pub modify-agree :
      (a : ℕ) (f g : A → A) (h : List A) (x : A)
      → at_address a h ≡ some x
      → f x ≡ g x
      → modify a f h ≡ modify a g h
  unfolding modify
  modify-agree a f g [] x e k = refl
  modify-agree zero f g (y ∷ h) x e k =
      ap (λ z. z ∷ h) (subst (λ z. f z ≡ g z) (some_eq x y (sym e)) k)
  modify-agree (suc a) f g (y ∷ h) x e k = ap (◌∷◌ y) (modify-agree a f g h x e k)

  pub at_address-modify_missing :
      (a : ℕ) (f : A → A) (h : List A) → at_address a h ≡ none → at_address a (modify a f h) ≡ none
  unfolding modify
  at_address-modify_missing a f [] e = refl
  at_address-modify_missing zero f (x ∷ h) e = cc
  at_address-modify_missing (suc a) f (x ∷ h) e = at_address-modify_missing a f h e

  -- What is at an address of a heap that has grown by one was there, or is the new one.
  pub at_address-append_cases :
      (a : ℕ) (h : List A) (x y : A)
      → at_address a (h ++ x ∷ []) ≡ some y
      → (at_address a h ≡ some y) ⊎ ((a ≡ length h) × (x ≡ y))
  at_address-append_cases zero [] x y e = inr (refl, some_eq x y e)
  at_address-append_cases (suc a) [] x y e = cc
  at_address-append_cases zero (z ∷ h) x y e = inl e
  at_address-append_cases (suc a) (z ∷ h) x y e = elim (at_address-append_cases a h x y e) [
    | inl k ↦ inl k
    | inr (k, l) ↦ inr (ap suc k, l)
  ]
