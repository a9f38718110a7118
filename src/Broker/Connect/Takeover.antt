-- ===== src/Broker/Connect/Takeover.antt =====
-- What an accepted connection does to the clients that are there: the `switch` over `typ` in
-- `handleConnection` of broker/broker.go.
use thoth.Base.{
  ℕ, ◌≡◌, refl, sym, ap, ◌∙◌, arith, Bool, true, false, Option, none, some, List, [], ◌∷◌, ◌++◌,
  Bytes, Bytes-discrete, length, ◌==◌,
}
use thoth.Packets.{ConnectPacket, ControlPacket}
use thoth.Assoc.{lookup, lookup-insert_self}
use thoth.Heap.{
  at_address, at_address-some, at_address-append, at_address-append_old, at_address-modify_self,
  at_address-modify_ne,
}
use thoth.Sessions.Store as Store
use thoth.Sessions.Store.{MemProvider}
use thoth.Sessions.Pointers.{IsSession, get_session-IsAnswer}
use thoth.Client as Client
use thoth.Client.{Client}
use thoth.Broker.{ClientType, Peer, Broker, World, with_state, is_none, is_end_user, new_peer}
use thoth.Broker.Valid.{IsBroker}
use thoth.Broker.Publish.Sent.{state_of, peer_of}
use thoth.Broker.Connect.{
  Visit, info_of, connack_of, accepted_code, close_client, close_old, register_client, serve,
  serve_answer, open_client, handle_connect, handle_packet, handle_connection,
}
use thoth.Broker.Connect.Admission.{admits_packet, admits, tested-opened}

serve_answer-serves :
    (w : World) (v : Visit) (typ : ClientType) (msg : ConnectPacket) (n : ℕ) (o : Option ℕ)
    (fine : Bool) (b : Broker)
    → IsSession n o
    → fine ≡ true
    → (a : ℕ) × (o ≡ some a) × (serve_answer w v typ msg o fine b ≡ serve w v typ msg a b)
serve_answer-serves w v typ msg n none fine b s h = absurd s
serve_answer-serves w v typ msg n (some a) true b s h = (a, refl, refl)
serve_answer-serves w v typ msg n (some a) false b s h = cc

-- The answer of `getSession` for a connection.
abbrev pub answer : Visit → ConnectPacket → Broker → Store.Answer
answer v msg b = Store.get_session v.generated msg (connack_of msg accepted_code) b.sessions

open_client-serves :
    (w : World) (v : Visit) (typ : ClientType) (msg : ConnectPacket) (b : Broker)
    → IsBroker b
    → (a : ℕ) × ((answer v msg b).session ≡ some a)
      × (open_client w v typ msg b
          ≡ serve w v typ msg a (record b { sessions = (answer v msg b).store }))
unfolding open_client
open_client-serves w v typ msg b k =
    let x = answer v msg b in
    let valid =
      get_session-IsAnswer v.generated msg (connack_of msg accepted_code) b.sessions k.4 in
    serve_answer-serves w v typ msg (length x.store.heap) x.session (is_none x.error)
      (record b { sessions = x.store }) valid.2 (ap is_none valid.3)

-- A connection that is let in ends in a new client with the session that `getSession` answered.
pub handle_connection-serves :
    (w : World) (v : Visit) (typ : ClientType) (msg : ConnectPacket) (b : Broker)
    → IsBroker b
    → v.packet ≡ some (ControlPacket.connect msg)
    → admits v typ ≡ true
    → (a : ℕ) × ((answer v msg b).session ≡ some a)
      × (handle_connection w v typ b
          ≡ serve w v typ msg a (record b { sessions = (answer v msg b).store }))
unfolding handle_connection handle_connect
handle_connection-serves w v typ msg b k e h =
    let (a, s, opened) = open_client-serves w v typ msg b k in
    (
      a,
      s,
      ap (λ o. handle_packet w v typ o b) e
          ∙ tested-opened (v.validate msg == accepted_code) (is_end_user typ)
              (v.check_connect msg.username msg.password) v.connack_written _ _ b
              (open_client w v typ msg b) (ap (admits_packet v typ) (sym e) ∙ h)
          ∙ opened,
    )

-- Closing the old client and adding the new one.
closed-state :
    (o : ℕ) (p : Peer) (b : Broker) (s : Client) (m : List (Bytes × ℕ)) (cid : Bytes)
    → state_of (at_address o b.peers) ≡ some s
    → lookup Bytes-discrete cid m ≡ some o
    → state_of (at_address o (close_old cid m (record b { peers = b.peers ++ p ∷ [] })).peers)
      ≡ some (Client.close s)
closed-state o p b s m cid e h =
    let (q, eq, es) = peer_of (at_address o b.peers) s e in
    ap
      (λ x. state_of (at_address o (close_client x (record b { peers = b.peers ++ p ∷ [] })).peers))
      h
    ∙ ap state_of (
        at_address-modify_self o (with_state Client.close) (b.peers ++ p ∷ []) q
          (at_address-append_old o b.peers p (at_address-some o b.peers q eq) ∙ eq))
    ∙ ap (λ x. some (Client.close x)) es

joined-peer :
    (o : ℕ) (p : Peer) (b : Broker) (s : Client) (m : List (Bytes × ℕ)) (cid : Bytes)
    → state_of (at_address o b.peers) ≡ some s
    → lookup Bytes-discrete cid m ≡ some o
    → at_address (length b.peers) (close_old cid m (record b { peers = b.peers ++ p ∷ [] })).peers
      ≡ some p
joined-peer o p b s m cid e h =
    let (q, eq, es) = peer_of (at_address o b.peers) s e in
    let l = at_address-some o b.peers q eq in
    ap
      (λ x.
        at_address (length b.peers) (close_client x (record b { peers = b.peers ++ p ∷ [] })).peers)
      h
    ∙ at_address-modify_ne o (length b.peers) (with_state Client.close) (b.peers ++ p ∷ [])
        (omega (arith, l))
    ∙ at_address-append b.peers p

-- A router that is let in by a broker with valid pointers takes the place of a router with its
-- identifier: the old client is closed, the identifier leads to the new one, and that has the
-- data of the CONNECT, no handshake and no subscription, and the session of `getSession`.
pub handle_connection-takes_over :
    (w : World) (v : Visit) (msg : ConnectPacket) (b : Broker) (o : ℕ) (s : Client)
    → IsBroker b
    → v.packet ≡ some (ControlPacket.connect msg)
    → admits v ClientType.router ≡ true
    → lookup Bytes-discrete msg.client_identifier b.routes ≡ some o
    → state_of (at_address o b.peers) ≡ some s
    → let b' = (handle_connection w v ClientType.router b).0 in
      (state_of (at_address o b'.peers) ≡ some (Client.close s))
      × (lookup Bytes-discrete msg.client_identifier b'.routes ≡ some (length b.peers))
      × ((a : ℕ) × ((answer v msg b).session ≡ some a)
          × (at_address (length b.peers) b'.peers
              ≡ some (new_peer ClientType.router (info_of msg) a)))
unfolding register_client
handle_connection-takes_over w v msg b o s k e h r l =
    let (a, x, served) = handle_connection-serves w v ClientType.router msg b k e h in
    let b' = record b { sessions = (answer v msg b).store } in
    (
      ap (λ y. state_of (at_address o y.0.peers)) served
          ∙ closed-state o (new_peer ClientType.router (info_of msg) a) b' s b.routes
              msg.client_identifier l r,
      ap (λ y. lookup Bytes-discrete msg.client_identifier y.0.routes) served
          ∙ lookup-insert_self Bytes-discrete msg.client_identifier (length b.peers) b.routes,
      (
        a,
        x,
        ap (λ y. at_address (length b.peers) y.0.peers) served
            ∙ joined-peer o (new_peer ClientType.router (info_of msg) a) b' s b.routes
                msg.client_identifier l r,
      ),
    )
