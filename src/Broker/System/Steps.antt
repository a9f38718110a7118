-- ===== src/Broker/System/Steps.antt =====
-- What one message, connection, timer or read of broker/client.go and broker/broker.go leaves of a client
-- for its reader: its type, its identifier and its cancelled context.
use thoth.Base.{
  ℕ, zero, suc, ◌≡◌, refl, sym, subst, arith, Bool, true, false, not, ◌&&◌, Option, none, some,
  List, [], ◌∷◌, Bytes, length, ◌==◌, if◌then◌else◌,
}
use thoth.Packets.{ConnectPacket, ConnackPacket, ControlPacket}
use thoth.Heap.{at_address, at_address-lt, at_address-some, modify}
use thoth.Sessions.Store as Store
use thoth.Client.{Client}
use thoth.Client.Effects.Kinds.{apply-IsCancelled}
use thoth.Broker.{ClientType, Peer, Broker, World, with_peer, is_none, is_end_user}
use thoth.Broker.Valid.{IsBroker, with_peer-IsBroker}
use thoth.Broker.Process.{read_packet}
use thoth.Broker.Connect.{
  Visit, Outcome, connack_of, accepted_code, bad_username_or_password, serve_answer, open_client,
  handle_connect, handle_packet, handle_connection,
}
use thoth.Broker.Invariant.{Event, step}
use thoth.Broker.Invariant.Clients.{run-IsClients}

abbrev pub IsStill : Peer → Peer → Type 0
IsStill p q =
    (q.typ ≡ p.typ)
    × (q.info.client_id ≡ p.info.client_id)
    × (p.state.cancelled ≡ true → q.state.cancelled ≡ true)

-- A client stays, as far as its reader is concerned; there may be new ones.
abbrev pub Follows : Option Peer → Option Peer → Type 0
Follows none o = Unit
Follows (some p) none = ⊥
Follows (some p) (some q) = IsStill p q

Follows-refl : (o : Option Peer) → Follows o o
Follows-refl none = tt
Follows-refl (some p) = (refl, refl, λ h. h)

-- The client at an address has this type and this identifier, and it is cancelled where it was so.
abbrev StillAt : ℕ → Peer → ℕ → ClientType → Bytes → Client → Type 0
StillAt c p a t i s =
    (a ≡ c) → (t ≡ p.typ) × (i ≡ p.info.client_id) × (p.state.cancelled ≡ true → s.cancelled ≡ true)

some_eq : (p q : Peer) → some p ≡ some q → p ≡ q
some_eq p q e = cc

step_found :
    (e : Event) (c : ℕ) (b : Broker) (p : Peer)
    → IsBroker b
    → at_address c b.peers ≡ some p
    → Follows (some p) (at_address c (step e b).peers)
step_found e c b p v h =
    let (v', (l, all)) =
      run-IsClients (suc c) (StillAt c p) (λ a t i l k. absurd (omega (arith, l, k)))
        (λ a t i f s k same. let (t', i', d) = k same in (t', i', λ g. apply-IsCancelled f s (d g)))
        (e ∷ []) b (v, (at_address-some c b.peers p h, at)) in
    let (q, found) = at_address-lt c (step e b).peers l in
    subst (Follows (some p)) (sym found) (all c q found refl)
  where
    at :
        (a : ℕ) (q : Peer)
        → at_address a b.peers ≡ some q
        → StillAt c p a q.typ q.info.client_id q.state
    at a q k same =
        subst
          (λ r.
            (r.typ ≡ p.typ)
            × (r.info.client_id ≡ p.info.client_id)
            × (p.state.cancelled ≡ true → r.state.cancelled ≡ true))
          (some_eq p q
            (subst (λ x. x ≡ some q) h (subst (λ x. at_address x b.peers ≡ some q) same k)))
          (refl, refl, λ g. g)

pub step-Follows :
    (e : Event) (c : ℕ) (b : Broker)
    → IsBroker b
    → Follows (at_address c b.peers) (at_address c (step e b).peers)
step-Follows e c b v = of_peer (at_address c b.peers) refl
  where
    of_peer :
        (o : Option Peer) → at_address c b.peers ≡ o → Follows o (at_address c (step e b).peers)
    of_peer none h = tt
    of_peer (some p) h = step_found e c b p v h

modify-Follows :
    (c a : ℕ) (f : Peer → Peer) (ps : List Peer)
    → ((p : Peer) → IsStill p (f p))
    → Follows (at_address a ps) (at_address a (modify c f ps))
unfolding modify
modify-Follows c a f [] k = tt
modify-Follows zero zero f (p ∷ ps) k = k p
modify-Follows zero (suc a) f (p ∷ ps) k = Follows-refl (at_address a ps)
modify-Follows (suc c) zero f (p ∷ ps) k = Follows-refl (some p)
modify-Follows (suc c) (suc a) f (p ∷ ps) k = modify-Follows c a f ps k

pub read-IsStill : (x : Option ControlPacket) (p : Peer) → IsStill p (read_packet x p).0
read-IsStill none p = (refl, refl, λ h. h)
read-IsStill (some ControlPacket.disconnect) p = (refl, refl, λ h. refl)
read-IsStill (some other) p = (refl, refl, λ h. h)

pub read-Follows :
    (x : Option ControlPacket) (c a : ℕ) (b : Broker)
    → Follows (at_address a b.peers) (at_address a (with_peer c (λ q. (read_packet x q).0) b).peers)
read-Follows x c a b = modify-Follows c a (λ q. (read_packet x q).0) b.peers (read-IsStill x)

pub read-IsBroker :
    (x : Option ControlPacket) (c : ℕ) (b : Broker)
    → IsBroker b
    → IsBroker (with_peer c (λ q. (read_packet x q).0) b)
read-IsBroker none c b v = with_peer-IsBroker c _ b (λ p h. h) v
read-IsBroker (some ControlPacket.disconnect) c b v = with_peer-IsBroker c _ b (λ p h. h) v
read-IsBroker (some other) c b v = with_peer-IsBroker c _ b (λ p h. h) v

-- The client that is accepted has this address.
abbrev pub IsNext : ℕ → Outcome → Type 0
IsNext n (Outcome.accepted ack c) = c ≡ n
IsNext n Outcome.exited = Unit
IsNext n Outcome.rejected = Unit
IsNext n (Outcome.refused ack) = Unit

if-IsNext :
    (n : ℕ) (x : Bool) (u v : Broker × Outcome)
    → IsNext n u.1
    → IsNext n v.1
    → IsNext n (if x then u else v).1
if-IsNext n true u v h k = h
if-IsNext n false u v h k = k

refusal-IsNext :
    (n : ℕ) (written : Bool) (ack : ConnackPacket) (o : Outcome)
    → IsNext n o
    → IsNext n (if written then Outcome.refused ack else o)
refusal-IsNext n true ack o h = tt
refusal-IsNext n false ack o h = h

answer-IsNext :
    (w : World) (v : Visit) (typ : ClientType) (msg : ConnectPacket) (o : Option ℕ) (fine : Bool)
    (b : Broker)
    → IsNext (length b.peers) (serve_answer w v typ msg o fine b).1
answer-IsNext w v typ msg none fine b = tt
answer-IsNext w v typ msg (some a) true b = refl
answer-IsNext w v typ msg (some a) false b = tt

connect-IsNext :
    (w : World) (v : Visit) (typ : ClientType) (msg : ConnectPacket) (b : Broker)
    → IsNext (length b.peers) (handle_connect w v typ msg b).1
unfolding handle_connect open_client
connect-IsNext w v typ msg b =
    let n = length b.peers in
    let a = Store.get_session v.generated msg (connack_of msg accepted_code) b.sessions in
    if-IsNext n (not (v.validate msg == accepted_code)) _ _
      (refusal-IsNext n v.connack_written (connack_of msg (v.validate msg)) Outcome.exited tt)
      (if-IsNext n (is_end_user typ && not (v.check_connect msg.username msg.password)) _ _
        (refusal-IsNext n v.connack_written (connack_of msg bad_username_or_password)
          Outcome.rejected tt)
        (if-IsNext n v.connack_written _ _
          (answer-IsNext w v typ msg a.session (is_none a.error) (record b { sessions = a.store }))
          tt))

packet-IsNext :
    (w : World) (v : Visit) (typ : ClientType) (o : Option ControlPacket) (b : Broker)
    → IsNext (length b.peers) (handle_packet w v typ o b).1
packet-IsNext w v typ none b = tt
packet-IsNext w v typ (some (ControlPacket.connect msg)) b = connect-IsNext w v typ msg b
packet-IsNext w v typ (some other) b = tt

pub handle_connection-IsNext :
    (w : World) (v : Visit) (typ : ClientType) (b : Broker)
    → IsNext (length b.peers) (handle_connection w v typ b).1
unfolding handle_connection
handle_connection-IsNext w v typ b = packet-IsNext w v typ v.packet b
