-- ===== src/Client.antt =====
-- `client` of broker/client.go and the retries of broker/comm.go: the connection, the handshakes of
-- QoS 1 and 2 on both sides, and the timers.
pub mod Inbound
pub mod Once
pub mod Fields
pub mod Handshake
pub mod Carried
pub mod Inflight
pub mod Silence
pub mod Armed
pub mod Limit
pub mod Outbound
pub mod Effects
use thoth.Base.{ℕ, Bool, true, false, Option, none, some, List, [], ◌∷◌, ◌++◌, if◌then◌else◌}
use thoth.Packets.{PublishPacket, ControlPacket}

pub data Status : Type 0 where
  connected disconnected : Status

pub data InflightStatus : Type 0 where
  publish pubrel : InflightStatus

pub record InflightElement : Type 0 where
  pub status : InflightStatus
  pub packet : PublishPacket
  pub timestamp : ℕ

-- The fields of `client` for the handshakes. `conn` tells whether the connection is not nil;
-- `retry_timer` has the interval of a timer that runs; `expiries` counts the calls of
-- `expireAwaitingRel` that are scheduled; `sent` is what was written to the connection.
pub record Client : Type 0 where
  pub status : Status
  pub conn : Bool
  pub cancelled : Bool
  pub awaiting_rel : List (ℕ × ℕ)
  pub max_awaiting_rel : ℕ
  pub expiries : ℕ
  pub inflight : List (ℕ × InflightElement)
  pub retry_timer : Option ℕ
  pub sent : List ControlPacket

pub data ClientError : Type 0 where
  connect_lost write_failed too_many_awaiting_rel packet_identifier_in_use
        packet_identifier_not_found :
      ClientError

abbrev pub await_rel_timeout : ℕ
await_rel_timeout = 20

abbrev pub retry_interval : ℕ
retry_interval = 20

-- A client as `init` of client.go leaves it.
abbrev pub init : Client
init = record {
  status = Status.connected;
  conn = true;
  cancelled = false;
  awaiting_rel = [];
  max_awaiting_rel = 0;
  expiries = 0;
  inflight = [];
  retry_timer = none;
  sent = [];
}

abbrev pub is_disconnected : Status → Bool
is_disconnected Status.connected = false
is_disconnected Status.disconnected = true

unfoldable pub close : Client → Client
close c =
    if is_disconnected c.status
    then c
    else record c { cancelled = true; status = Status.disconnected; conn = false }

-- `WritePacket`; `writes` tells whether `packet.Write` succeeds.
unfoldable pub write_packet :
    (ControlPacket → Bool) → ControlPacket → Client → Client × Option ClientError
write_packet writes packet c =
    if is_disconnected c.status
    then (c, none)
    else if c.conn
    then (if writes packet
        then (record c { sent = c.sent ++ packet ∷ [] }, none)
        else (c, some write_failed))
    else (close c, some connect_lost)

-- `ProcessPing`
unfoldable pub process_ping : (ControlPacket → Bool) → Client → Client
process_ping writes c =
    if is_disconnected c.status then c else (write_packet writes ControlPacket.pingresp c).0
