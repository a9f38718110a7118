-- ===== src/Client/Carried.antt =====
-- The inflight messages of broker/client.go that have one message under its identifier.
use thoth.Base.{ℕ, ◌≡◌, ◌≢◌, sym, ap, ◌∙◌, arith, none, some, List, [], ◌∷◌, ℕ_discrete, ite}
use thoth.Packets.{PublishPacket}
use thoth.All.{All}
use thoth.Assoc.{lookup, insert, remove, lookup-insert, lookup-remove_ne}
use thoth.Client.{InflightElement}

abbrev pub Inflight : Type 0
Inflight = List (ℕ × InflightElement)

module _ (i : ℕ) (packet : PublishPacket) where
  abbrev pub Carries : ℕ × InflightElement → Type 0
  Carries x = x.0 ≡ i → x.1.packet ≡ packet

  -- Under the identifier is this packet and no other.
  abbrev pub Keeps : Inflight → Type 0
  Keeps m = All Carries m × (e : InflightElement) × (lookup ℕ_discrete i m ≡ some e)

  pub All-insert :
      (j : ℕ) (e : InflightElement) (m : Inflight)
      → Carries (j, e)
      → All Carries m
      → All Carries (insert ℕ_discrete j e m)
  unfolding insert
  All-insert j e [] p h = (p, tt)
  All-insert j e ((k, f) ∷ m) p h =
      elim (ℕ_discrete k j)
        as (λ d. All Carries (ite d ((k, e) ∷ m) ((k, f) ∷ insert ℕ_discrete j e m))) [
          | yes q ↦ ((λ r. p (sym q ∙ r)), h.1)
          | no q ↦ (h.0, All-insert j e m p h.1)
        ]

  All-remove : (j : ℕ) (m : Inflight) → All Carries m → All Carries (remove ℕ_discrete j m)
  unfolding remove
  All-remove j [] h = tt
  All-remove j ((k, f) ∷ m) h =
      elim (ℕ_discrete k j)
        as (λ d. All Carries (ite d (remove ℕ_discrete j m) ((k, f) ∷ remove ℕ_discrete j m))) [
          | yes q ↦ All-remove j m h.1
          | no q ↦ (h.0, All-remove j m h.1)
        ]

  pub All-lookup :
      (j : ℕ) (e : InflightElement) (m : Inflight)
      → All Carries m
      → lookup ℕ_discrete j m ≡ some e
      → Carries (j, e)
  unfolding lookup
  All-lookup j e [] h q = cc
  All-lookup j e ((k, f) ∷ m) h q = found (ℕ_discrete k j) (All-lookup j e m h.1) q
    where
      some_eq : (x y : InflightElement) → some x ≡ some y → x ≡ y
      some_eq x y r = cc

      found :
          (d : Dec (k ≡ j))
          → (lookup ℕ_discrete j m ≡ some e → Carries (j, e))
          → ite d (some f) (lookup ℕ_discrete j m) ≡ some e
          → Carries (j, e)
      found (yes r) ih q = λ s. ap (λ x. x.packet) (sym (some_eq f e q)) ∙ h.0 (r ∙ s)
      found (no r) ih q = ih q

  pub All-none : (m : Inflight) → lookup ℕ_discrete i m ≡ none → All Carries m
  unfolding lookup
  All-none [] q = tt
  All-none ((k, f) ∷ m) q = found (ℕ_discrete k i) (All-none m) q
    where
      differ : some f ≡ none → ⊥
      differ r = cc

      found :
          (d : Dec (k ≡ i))
          → (lookup ℕ_discrete i m ≡ none → All Carries m)
          → ite d (some f) (lookup ℕ_discrete i m) ≡ none
          → Carries (k, f) × All Carries m
      found (yes r) ih q = absurd (differ q)
      found (no r) ih q = ((λ s. absurd (r s)), ih q)

  insert-held :
      (j : ℕ) (e f : InflightElement) (m : Inflight)
      → lookup ℕ_discrete i m ≡ some f
      → (g : InflightElement) × (lookup ℕ_discrete i (insert ℕ_discrete j e m) ≡ some g)
  insert-held j e f m q = elim (ℕ_discrete j i) [
    | yes r ↦ (e, ground (arith, lookup-insert ℕ_discrete j i e m))
    | no r ↦ (f, ground (arith, lookup-insert ℕ_discrete j i e m))
  ]

  pub insert-Keeps :
      (j : ℕ) (e : InflightElement) (m : Inflight)
      → Carries (j, e)
      → Keeps m
      → Keeps (insert ℕ_discrete j e m)
  insert-Keeps j e m p (h, f, q) =
      let (g, r) = insert-held j e f m q in (All-insert j e m p h, g, r)

  pub remove-Keeps : (j : ℕ) (m : Inflight) → j ≢ i → Keeps m → Keeps (remove ℕ_discrete j m)
  remove-Keeps j m n (h, f, q) = (All-remove j m h, f, lookup-remove_ne ℕ_discrete m n ∙ q)
