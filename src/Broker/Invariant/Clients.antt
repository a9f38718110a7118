-- ===== src/Broker/Invariant/Clients.antt =====
-- What runs of the broker leave of the clients: a property of a client that each call of its methods keeps
-- holds of it after every run. The type and the identifier of a client never change.
use thoth.Base.{
  ℕ, ◌≡◌, ◌≤◌, inl, inr, refl, sym, subst, ◌∙◌, arith, Option, none, some, List, [], ◌∷◌, ◌++◌,
  Bytes, length, length-append, ℕ_discrete,
}
use thoth.Heap.{
  at_address, modify, length-modify, at_address-modify_self, at_address-modify_ne,
  at_address-modify_missing, at_address-append_cases,
}
use thoth.Client.{Client, init}
use thoth.Client.Effects.{Effect, apply}
use thoth.Broker.{ClientType, Peer, Broker, with_state, new_peer}
use thoth.Broker.Valid.{IsBroker, IsBroker-IsKept}
use thoth.Broker.Kept.{IsOwn, IsKept}
use thoth.Broker.Invariant.{Event, run}
use thoth.Broker.Invariant.Runs.{run-kept}

module _ (n : ℕ) (S : ℕ → ClientType → Bytes → Client → Type 0)
    (fresh : (a : ℕ) (t : ClientType) (i : Bytes) → n ≤ a → S a t i init)
    (closed : (a : ℕ) (t : ClientType) (i : Bytes) (e : Effect) (s : Client)
      → S a t i s
      → S a t i (apply e s)) where
  abbrev OfPeer : ℕ → Peer → Type 0
  OfPeer a p = S a p.typ p.info.client_id p.state

  -- At least n clients, and each client has the property of its address.
  abbrev pub AllClients : List Peer → Type 0
  AllClients ps = (n ≤ length ps) × ((a : ℕ) (p : Peer) → at_address a ps ≡ some p → OfPeer a p)

  some_eq : (p q : Peer) → some p ≡ some q → p ≡ q
  some_eq p q e = cc

  not_found : (p : Peer) → none ≡ some p → ⊥
  not_found p e = cc

  changed :
      (c : ℕ) (f : Peer → Peer) (ps : List Peer)
      → ((p : Peer) → OfPeer c p → OfPeer c (f p))
      → AllClients ps
      → AllClients (modify c f ps)
  changed c f ps keeps (l, all) = (rw (length-modify c f ps) l, at)
    where
      of_old :
          (p : Peer) (o : Option Peer)
          → at_address c ps ≡ o
          → at_address c (modify c f ps) ≡ some p
          → OfPeer c p
      of_old p none e h = absurd (not_found p (sym (at_address-modify_missing c f ps e) ∙ h))
      of_old p (some q) e h =
          subst (λ r. OfPeer c r) (some_eq (f q) p (sym (at_address-modify_self c f ps q e) ∙ h))
            (keeps q (all c q e))

      at : (a : ℕ) (p : Peer) → at_address a (modify c f ps) ≡ some p → OfPeer a p
      at a p h = elim (ℕ_discrete c a) [
        | yes e ↦
            subst (λ x. at_address x (modify c f ps) ≡ some p → OfPeer x p) e
              (of_old p (at_address c ps) refl) h
        | no e ↦ all a p (sym (at_address-modify_ne c a f ps e) ∙ h)
      ]

  joined :
      (p : Peer) (ps : List Peer)
      → ((a : ℕ) → n ≤ a → OfPeer a p)
      → AllClients ps
      → AllClients (ps ++ p ∷ [])
  joined p ps e (l, all) = (omega (arith, l, length-append ps (p ∷ [])), at)
    where
      at : (a : ℕ) (q : Peer) → at_address a (ps ++ p ∷ []) ≡ some q → OfPeer a q
      at a q h = elim (at_address-append_cases a ps p q h) [
        | inl k ↦ all a q k
        | inr (k, k') ↦ subst (λ r. OfPeer a r) k' (e a (omega (arith, l, k)))
      ]

  -- With the validity of the pointers, this withstands the changes of the store.
  abbrev pub IsClients : Broker → Type 0
  IsClients b = IsBroker b × AllClients b.peers

  own_state : (c : ℕ) (p q : Peer) (m : ℕ) → IsOwn m p q → OfPeer c p → OfPeer c q
  own_state c p q m (t, i, s, a, h) k =
      subst (λ x. S c x q.info.client_id q.state) (sym t)
        (subst (λ x. S c p.typ x.client_id q.state) (sym i)
          (subst (λ x. S c p.typ p.info.client_id x) (sym s) k))

  pub IsClients-IsKept : IsKept IsClients
  IsClients-IsKept = record {
    provider = λ b v. IsBroker-IsKept.provider b v.0;
    acts = λ c e b v. (
      IsBroker-IsKept.acts c e b v.0,
      changed c (with_state (apply e)) b.peers (λ p. closed c p.typ p.info.client_id e p.state) v.1,
    );
    owns = λ c f b own v. (
      IsBroker-IsKept.owns c f b own v.0,
      changed c f b.peers (λ p. own_state c p (f p) (length b.subscriptions) (own p)) v.1,
    );
    forgets_will = λ c b v. (
      IsBroker-IsKept.forgets_will c b v.0,
      changed c (λ p. record p { info = record p.info { will_msg = none } }) b.peers (λ p h. h) v.1,
    );
    retains = λ packet b v. (IsBroker-IsKept.retains packet b v.0, v.1);
    unsubscribes = λ topic x b v. (IsBroker-IsKept.unsubscribes topic x b v.0, v.1);
    subscribes = λ s topic qos b l v. (IsBroker-IsKept.subscribes s topic qos b l v.0, v.1);
    changes_session = λ a f b v. (IsBroker-IsKept.changes_session a f b v.0, v.1);
    opens = λ store b h l v. (IsBroker-IsKept.opens store b h l v.0, v.1);
    joins = λ typ info a b l v. (
      IsBroker-IsKept.joins typ info a b l v.0,
      joined (new_peer typ info a) b.peers (λ x. fresh x typ info.client_id) v.1,
    );
    notes = λ nodes bridged b v. (IsBroker-IsKept.notes nodes bridged b v.0, v.1);
    routed = λ cid c b l v. (IsBroker-IsKept.routed cid c b l v.0, v.1);
  }

  pub run-IsClients : (es : List Event) (b : Broker) → IsClients b → IsClients (run es b)
  run-IsClients = run-kept IsClients IsClients-IsKept
