-- ===== src/Broker/Connect/Admission.antt =====
-- Which connections `handleConnection` of broker/broker.go accepts.
use thoth.Base.{
  ℕ, ◌≡◌, refl, ap, Bool, true, false, not, ◌&&◌, ◌||◌, Option, none, some, length, ◌==◌,
  if◌then◌else◌,
}
use thoth.Packets.{ConnectPacket, ConnackPacket, ControlPacket}
use thoth.Sessions.Store as Store
use thoth.Sessions.Pointers.{IsSession, get_session-IsAnswer}
use thoth.Broker.{ClientType, Broker, World, is_none, is_end_user}
use thoth.Broker.Valid.{IsBroker}
use thoth.Broker.Connect.{
  Visit, Outcome, connack_of, accepted_code, serve_answer, open_client, handle_connect,
  handle_packet, handle_connection,
}

abbrev pub is_accepted : Outcome → Bool
is_accepted (Outcome.accepted ack c) = true
is_accepted other = false

-- The packet is a CONNECT that is valid, an end user is let in by the authentication, and the CONNACK
-- can be written.
abbrev pub admits_packet : Visit → ClientType → Option ControlPacket → Bool
admits_packet v typ none = false
admits_packet v typ (some (ControlPacket.connect msg)) =
    (v.validate msg == accepted_code)
    && (not (is_end_user typ) || v.check_connect msg.username msg.password)
    && v.connack_written
admits_packet v typ (some other) = false

abbrev pub admits : Visit → ClientType → Bool
admits v typ = admits_packet v typ v.packet

serve_answer-accepted :
    (w : World) (v : Visit) (typ : ClientType) (msg : ConnectPacket) (n : ℕ) (o : Option ℕ)
    (fine : Bool) (b : Broker)
    → IsSession n o
    → fine ≡ true
    → is_accepted (serve_answer w v typ msg o fine b).1 ≡ true
serve_answer-accepted w v typ msg n none fine b s h = absurd s
serve_answer-accepted w v typ msg n (some a) true b s h = refl
serve_answer-accepted w v typ msg n (some a) false b s h = cc

open_client-accepted :
    (w : World) (v : Visit) (typ : ClientType) (msg : ConnectPacket) (b : Broker)
    → IsBroker b
    → is_accepted (open_client w v typ msg b).1 ≡ true
unfolding open_client
open_client-accepted w v typ msg b k =
    let a = Store.get_session v.generated msg (connack_of msg accepted_code) b.sessions in
    let answer =
      get_session-IsAnswer v.generated msg (connack_of msg accepted_code) b.sessions k.4 in
    serve_answer-accepted w v typ msg (length a.store.heap) a.session (is_none a.error)
      (record b { sessions = a.store }) answer.2 (ap is_none answer.3)

-- The three tests of `handleConnection`, and what their outcomes are.
abbrev pub tested :
    Bool → Bool → Bool → Bool → Outcome → Outcome → Broker → Broker × Outcome → Broker × Outcome
tested valid user allowed written o o' b opened =
    if not valid
    then (b, o)
    else if user && not allowed
    then (b, o')
    else if written
    then opened
    else (b, Outcome.exited)

tested-accepted :
    (valid user allowed written : Bool) (o o' : Outcome) (b : Broker) (opened : Broker × Outcome)
    → is_accepted o ≡ false
    → is_accepted o' ≡ false
    → is_accepted opened.1 ≡ true
    → is_accepted (tested valid user allowed written o o' b opened).1
      ≡ (valid && (not user || allowed) && written)
tested-accepted false user allowed written o o' b opened h h' k = h
tested-accepted true true false written o o' b opened h h' k = h'
tested-accepted true true true true o o' b opened h h' k = k
tested-accepted true true true false o o' b opened h h' k = refl
tested-accepted true false allowed true o o' b opened h h' k = k
tested-accepted true false allowed false o o' b opened h h' k = refl

pub tested-opened :
    (valid user allowed written : Bool) (o o' : Outcome) (b : Broker) (opened : Broker × Outcome)
    → (valid && (not user || allowed) && written) ≡ true
    → tested valid user allowed written o o' b opened ≡ opened
tested-opened false user allowed written o o' b opened h = cc
tested-opened true true false written o o' b opened h = cc
tested-opened true true true true o o' b opened h = refl
tested-opened true true true false o o' b opened h = cc
tested-opened true false allowed true o o' b opened h = refl
tested-opened true false allowed false o o' b opened h = cc

tested-same :
    (valid user allowed written : Bool) (o o' : Outcome) (b : Broker) (opened : Broker × Outcome)
    → (valid && (not user || allowed) && written) ≡ false
    → (tested valid user allowed written o o' b opened).0 ≡ b
tested-same false user allowed written o o' b opened h = refl
tested-same true true false written o o' b opened h = refl
tested-same true true true true o o' b opened h = cc
tested-same true true true false o o' b opened h = refl
tested-same true false allowed true o o' b opened h = cc
tested-same true false allowed false o o' b opened h = refl

refusal :
    (written : Bool) (ack : ConnackPacket) (o : Outcome)
    → is_accepted o ≡ false
    → is_accepted (if written then Outcome.refused ack else o) ≡ false
refusal true ack o h = refl
refusal false ack o h = h

handle_connect-accepted :
    (w : World) (v : Visit) (typ : ClientType) (msg : ConnectPacket) (b : Broker)
    → IsBroker b
    → is_accepted (handle_connect w v typ msg b).1
      ≡ admits_packet v typ (some (ControlPacket.connect msg))
unfolding handle_connect
handle_connect-accepted w v typ msg b k =
    tested-accepted (v.validate msg == accepted_code) (is_end_user typ)
      (v.check_connect msg.username msg.password) v.connack_written _ _ b
      (open_client w v typ msg b)
      (refusal v.connack_written (connack_of msg (v.validate msg)) Outcome.exited refl)
      (refusal v.connack_written (connack_of msg 4) Outcome.rejected refl)
      (open_client-accepted w v typ msg b k)

handle_packet-accepted :
    (w : World) (v : Visit) (typ : ClientType) (o : Option ControlPacket) (b : Broker)
    → IsBroker b
    → is_accepted (handle_packet w v typ o b).1 ≡ admits_packet v typ o
handle_packet-accepted w v typ none b k = refl
handle_packet-accepted w v typ (some (ControlPacket.connect msg)) b k =
    handle_connect-accepted w v typ msg b k
handle_packet-accepted w v typ (some other) b k = refl

-- A connection to a broker with valid pointers is accepted exactly if its first packet is a CONNECT
-- that the library finds valid, an end user is let in by the authentication, and the CONNACK can be
-- written; a session is never the obstacle.
pub handle_connection-eq-admits :
    (w : World) (v : Visit) (typ : ClientType) (b : Broker)
    → IsBroker b
    → is_accepted (handle_connection w v typ b).1 ≡ admits v typ
unfolding handle_connection
handle_connection-eq-admits w v typ b k = handle_packet-accepted w v typ v.packet b k

handle_packet-same :
    (w : World) (v : Visit) (typ : ClientType) (o : Option ControlPacket) (b : Broker)
    → admits_packet v typ o ≡ false
    → (handle_packet w v typ o b).0 ≡ b
unfolding handle_connect
handle_packet-same w v typ none b h = refl
handle_packet-same w v typ (some (ControlPacket.connect msg)) b h =
    tested-same (v.validate msg == accepted_code) (is_end_user typ)
      (v.check_connect msg.username msg.password) v.connack_written _ _ b
      (open_client w v typ msg b) h
handle_packet-same w v typ (some other) b h = refl

-- A connection without a CONNECT as its first packet, or with one that is not valid or not let in or
-- whose CONNACK cannot be written, leaves the broker as it is: no client, no session, no route.
pub handle_connection-unchanged :
    (w : World) (v : Visit) (typ : ClientType) (b : Broker)
    → admits v typ ≡ false
    → (handle_connection w v typ b).0 ≡ b
unfolding handle_connection
handle_connection-unchanged w v typ b h = handle_packet-same w v typ v.packet b h
