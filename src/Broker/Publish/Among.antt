-- ===== src/Broker/Publish/Among.antt =====
-- Which found subscriptions `ProcessPublishMessage` of broker/publish.go delivers to.
use mathlib.Core.List.{Memᴰ}
use thoth.Base.{
  ℕ, ◌≡◌, ◌<◌, inl, inr, arith, true, false, some, List, [], ◌∷◌, ◌++◌, Bool-cases, Option-cases,
}
use thoth.Topics.Value.{Value}
use thoth.Broker.{ClientType, Subscription, Broker}
use thoth.Broker.Publish.{subscription_of}
use thoth.Broker.Publish.Delivery.{is_receiver, selected, unshared, count_of}

-- A subscription that is found is among those that a message is delivered to.
module _ (typ : ClientType) (b : Broker) (c : ℕ) (s : Subscription) (v : Value)
    (e : subscription_of v b ≡ some s) (k : is_receiver typ s b ≡ true) (n : s.share ≡ false)
    (h : s.client ≡ c) where
  own : (ss : List Subscription) → 0 < count_of c (unshared (s ∷ ss))
  own ss = ground arith

  others :
      (r : Subscription) (ss : List Subscription)
      → 0 < count_of c (unshared ss)
      → 0 < count_of c (unshared (r ∷ ss))
  others r ss l = ground arith

  pub count_of-selected :
      (vs : List Value) → Memᴰ v vs → 0 < count_of c (unshared (selected typ b vs))
  unfolding selected
  count_of-selected [] m = elim m [ ]
  count_of-selected (x ∷ vs) (Memᴰ.head same) =
      rw (← same, selected, e, k) (own (selected typ b vs))
  count_of-selected (x ∷ vs) (Memᴰ.tail m) = elim (Option-cases (subscription_of x b)) [
    | inl f ↦ rw (selected, f) (count_of-selected vs m)
    | inr (r, f) ↦ elim (Bool-cases (is_receiver typ r b)) [
      | inr g ↦ rw (selected, f, g) (count_of-selected vs m)
      | inl g ↦ rw (selected, f, g) (others r (selected typ b vs) (count_of-selected vs m))
    ]
  ]

pub count_of-append :
    (c : ℕ) (ss rs : List Subscription) → 0 < count_of c ss → 0 < count_of c (ss ++ rs)
count_of-append c [] rs l = absurd (omega (arith, l))
count_of-append c (s ∷ ss) rs l = grind (arith, count_of-append c ss rs)
