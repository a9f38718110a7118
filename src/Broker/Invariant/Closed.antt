-- ===== src/Broker/Invariant/Closed.antt =====
-- The connections and the timers of the clients in every run of the broker: broker/client.go and
-- broker/comm.go under all handlers.
use thoth.Base.{
  ℕ, suc, ◌≡◌, ◌≤◌, refl, sym, subst, ap, ◌∙◌, arith, none, some, List, [], ◌∷◌, Bytes,
}
use thoth.Packets.{ControlPacket}
use thoth.Heap.{at_address, at_address-lt, at_address-some, at_address-modify_self}
use thoth.Client.{Client, init, close}
use thoth.Client.Silence.{IsSilent, close-IsSilent}
use thoth.Client.Armed.{IsArmed}
use thoth.Client.Fields.{extract_packet_fields, validate_fields}
use thoth.Client.Effects.{Effect, apply}
use thoth.Client.Effects.Kinds.{apply-IsSilent, apply-IsArmed}
use thoth.Broker.{ClientType, Peer, Broker, World, new_broker, with_peer, with_state}
use thoth.Broker.Valid.{IsBroker}
use thoth.Broker.Publish.Sent.{state_of}
use thoth.Broker.Process.{dispatch, process_message}
use thoth.Broker.Invariant.{Event, step, run}
use thoth.Broker.Invariant.Clients.{run-IsClients}
use thoth.Broker.Invariant.Runs.{run-IsBroker, new_broker-IsBroker}

-- The client at an address is closed, and this was written to it.
abbrev SilentAt : ℕ → List ControlPacket → ℕ → ClientType → Bytes → Client → Type 0
SilentAt d out a t i s = (a ≡ d) → IsSilent out s

fresh-SilentAt :
    (d : ℕ) (out : List ControlPacket) (a : ℕ) (t : ClientType) (i : Bytes)
    → suc d ≤ a
    → SilentAt d out a t i init
fresh-SilentAt d out a t i l e = absurd (omega (arith, l, e))

apply-SilentAt :
    (d : ℕ) (out : List ControlPacket) (a : ℕ) (t : ClientType) (i : Bytes) (e : Effect)
    (s : Client)
    → SilentAt d out a t i s
    → SilentAt d out a t i (apply e s)
apply-SilentAt d out a t i e s h k = apply-IsSilent out e s (h k)

some_eq : (p q : Peer) → some p ≡ some q → p ≡ q
some_eq p q e = cc

-- A client that is closed stays closed and silent.
pub run-IsSilent :
    (es : List Event) (b : Broker) (d : ℕ) (p : Peer) (out : List ControlPacket)
    → IsBroker b
    → at_address d b.peers ≡ some p
    → IsSilent out p.state
    → (s : Client) × (state_of (at_address d (run es b).peers) ≡ some s) × IsSilent out s
run-IsSilent es b d p out v h k =
    let (v', (l, all)) =
      run-IsClients (suc d) (SilentAt d out) (fresh-SilentAt d out) (apply-SilentAt d out) es b
        (v, (at_address-some d b.peers p h, at)) in
    let (q, e) = at_address-lt d (run es b).peers l in (q.state, ap state_of e, all d q e refl)
  where
    at :
        (a : ℕ) (q : Peer)
        → at_address a b.peers ≡ some q
        → SilentAt d out a q.typ q.info.client_id q.state
    at a q e same =
        subst (λ r. IsSilent out r.state)
          (some_eq p q (sym h ∙ subst (λ x. at_address x b.peers ≡ some q) same e)) k

some_ne : (p : Peer) → none ≡ some p → ⊥
some_ne p h = cc

disconnected :
    (w : World) (d : ℕ) (b : Broker) (p : Peer)
    → at_address d b.peers ≡ some p
    → step (Event.message w d ControlPacket.disconnect) b ≡ with_peer d (with_state close) b
unfolding process_message dispatch extract_packet_fields validate_fields
disconnected w d b p h = rw (h, process_message) refl

-- Once a DISCONNECT of a client has been processed by a broker with valid pointers, the client stays closed
-- and nothing is written to it any more, whatever messages, connections and timers follow.
pub disconnect-silences :
    (w : World) (es : List Event) (b : Broker) (d : ℕ) (p : Peer)
    → IsBroker b
    → at_address d b.peers ≡ some p
    → (s : Client) × (state_of
          (at_address d (run (Event.message w d ControlPacket.disconnect ∷ es) b).peers)
        ≡ some s)
      × IsSilent p.state.sent s
disconnect-silences w es b d p v h =
    run-IsSilent es (step (Event.message w d ControlPacket.disconnect) b) d (with_state close p)
      p.state.sent (run-IsBroker (Event.message w d ControlPacket.disconnect ∷ []) b v)
      (ap (λ x. at_address d x.peers) (disconnected w d b p h)
        ∙ at_address-modify_self d (with_state close) b.peers p h)
      (close-IsSilent p.state)

-- In every run of a new broker, each client that has a connection and an inflight message has its retry timer
-- running, whoever the message came from and whatever became of the writes.
pub run-IsArmed :
    (es : List Event) (a : ℕ) (p : Peer)
    → at_address a (run es new_broker).peers ≡ some p
    → IsArmed p.state
run-IsArmed es a p h =
    let (v, (l, all)) =
      run-IsClients 0 (λ a t i s. IsArmed s) (λ a t i l. refl) (λ a t i e s k. apply-IsArmed e s k)
        es new_broker (new_broker-IsBroker, (omega arith, λ a q e. absurd (some_ne q e))) in
    all a p h
