-- ===== src/Broker/Process.antt =====
-- `ProcessMessage` and the body of `readLoop` in broker/client.go, and `SubmitWork` of
-- broker/broker.go.
pub mod Reading
use thoth.Base.{◌++◌, ℕ, Bool, true, false, not, Option, none, some, List, [], ◌∷◌, if◌then◌else◌}
use thoth.Packets.{ControlPacket}
use thoth.Utf8.{valid_string}
use thoth.Heap.{at_address}
use thoth.Client as Client
use thoth.Client.{Client}
use thoth.Client.Fields.{validate_packet_fields}
use thoth.Client.Inbound.{process_pubrel}
use thoth.Client.Outbound.{process_puback, process_pubrec, process_pubcomp}
use thoth.Broker.{Peer, Broker, World, with_peer, with_state}
use thoth.Broker.Publish.{process_publish}
use thoth.Broker.Subscribe.{process_subscribe}
use thoth.Broker.Unsubscribe.{process_unsubscribe}

abbrev pub on_state : ℕ → (Client → Client) → Broker → Broker
on_state c f = with_peer c (with_state f)

-- The `switch` over the type of the packet.
unfoldable pub dispatch : World → ℕ → ControlPacket → Broker → Broker
dispatch w c (ControlPacket.connack p) b = b
dispatch w c (ControlPacket.connect p) b = b
dispatch w c (ControlPacket.publish p) b = process_publish w c p b
dispatch w c (ControlPacket.puback i) b = on_state c (process_puback i) b
dispatch w c (ControlPacket.pubrec i) b = on_state c (process_pubrec (w.writes c) w.now i) b
dispatch w c (ControlPacket.pubrel i) b = on_state c (process_pubrel (w.writes c) i) b
dispatch w c (ControlPacket.pubcomp i) b = on_state c (process_pubcomp i) b
dispatch w c (ControlPacket.subscribe p) b = process_subscribe w c p b
dispatch w c (ControlPacket.suback p) b = b
dispatch w c (ControlPacket.unsubscribe p) b = process_unsubscribe w c p b
dispatch w c (ControlPacket.unsuback i) b = b
dispatch w c ControlPacket.pingreq b = on_state c (Client.process_ping (w.writes c)) b
dispatch w c ControlPacket.pingresp b = b
dispatch w c ControlPacket.disconnect b = on_state c Client.close b

-- The connection is closed, while the status stays.
abbrev pub hang_up : Peer → Peer
hang_up p = record p { hung_up = true }

-- `c.conn.Close()` on a malformed packet panics where `c.conn` is nil: none.
unfoldable pub process_message : World → ℕ → ControlPacket → Broker → Option Broker
process_message w c ca b = elim (at_address c b.peers) [
  | none ↦ none
  | some p ↦
      if not (validate_packet_fields valid_string ca)
      then (if p.state.conn then some (with_peer c hang_up b) else none)
      else some (dispatch w c ca b)
]

-- The branch of `readLoop` that reads a packet: what it does to its client and submits as work, and
-- whether the loop goes on. `none` for the packet is an error of `ReadPacket`; a deadline that
-- cannot be set panics and is left out.
abbrev pub read_packet : Option ControlPacket → Peer → Peer × List ControlPacket × Bool
read_packet none p = (p, ControlPacket.disconnect ∷ [], false)
read_packet (some ControlPacket.disconnect) p = (
  record p {
    info = record p.info { will_msg = none };
    state = record p.state { cancelled = true };
  },
  ControlPacket.disconnect ∷ [],
  true,
)
read_packet (some other) p = (p, other ∷ [], true)

abbrev pub read_unless : Bool → Option ControlPacket → Peer → Peer × List ControlPacket × Bool
read_unless true packet p = (p, [], false)
read_unless false packet p = read_packet packet p

-- A round of `readLoop`: its context may be cancelled.
unfoldable pub read_round : Option ControlPacket → Peer → Peer × List ControlPacket × Bool
read_round packet p = read_unless p.state.cancelled packet p

abbrev pub go_on :
    Peer × List ControlPacket × Bool → Peer × List ControlPacket → Peer × List ControlPacket
go_on (p, submitted, true) (p', rest) = (p', submitted ++ rest)
go_on (p, submitted, false) rest = (p, submitted)

-- `readLoop`, with what its calls of `ReadPacket` come to, as far as they have come.
unfoldable pub read_loop : List (Option ControlPacket) → Peer → Peer × List ControlPacket
read_loop [] p = (p, [])
read_loop (x ∷ xs) p = go_on (read_round x p) (read_loop xs (read_round x p).0)
