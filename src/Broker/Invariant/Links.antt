-- ===== src/Broker/Invariant/Links.antt =====
-- The validity of the pointers where a subscription ends or a session changes: broker/subscribe.go and
-- broker/unsubscribe.go.
use thoth.Base.{
  refl, ℕ, ◌<◌, inl, inr, Option, none, some, Bytes, Bytes-discrete, length, Option-cases,
}
use thoth.Assoc.{remove}
use thoth.All.{Values-remove}
use thoth.Heap.{at_address}
use thoth.Sessions.Session as Session
use thoth.Topics.Value.{Value}
use thoth.Broker.{Peer, Broker}
use thoth.Broker.Subscribe.{drop_subscription, forget, on_session, with_session}
use thoth.Broker.Kept.{IsKept}

module _ (P : Broker → Type 0) (kept : IsKept P) where
  pub drop_subscription-kept : (a : ℕ) (b : Broker) → P b → P (drop_subscription a b)
  unfolding drop_subscription
  drop_subscription-kept a b v = elim (Option-cases (at_address a b.subscriptions)) [
    | inl e ↦ rw (e, drop_subscription) v
    | inr (s, e) ↦ rw (e, drop_subscription) (kept.unsubscribes s.topic (Value.pointer a) b v)
  ]

  pub forget-kept : (c : ℕ) (t : Bytes) (b : Broker) → P b → P (forget c t b)
  forget-kept c t b =
      kept.owns c (λ p. record p { sub_map = remove Bytes-discrete t p.sub_map }) b
        (λ p. (
          refl,
          refl,
          refl,
          refl,
          Values-remove Bytes-discrete (λ a. a < length b.subscriptions) t p.sub_map,
        ))

  pub with_session-kept :
      (c : ℕ) (f : Session.Session → Session.Session) (b : Broker) → P b → P (with_session c f b)
  unfolding with_session
  with_session-kept c f b v = of_peer (at_address c b.peers)
    where
      of_peer : (o : Option Peer) → P (on_session f b o)
      of_peer none = v
      of_peer (some p) = kept.changes_session p.session f b v
