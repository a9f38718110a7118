-- ===== src/Broker/Invariant.antt =====
-- The validity of the pointers through every message that the broker processes and every connection
-- that it accepts.
pub mod Published
pub mod Subscribed
pub mod Connected
pub mod Links
pub mod Unsubscribed
pub mod Runs
pub mod Clients
pub mod Closed
pub mod Empty
use thoth.Base.{ℕ, ◌≡◌, refl, Bool, true, false, Option, none, some, List, [], ◌∷◌}
use thoth.Packets.{ControlPacket}
use thoth.Client.Inbound.{expire_awaiting_rel}
use thoth.Client.Outbound.{retry_delivery}
use thoth.Broker.{ClientType, Broker, World, with_peer, with_state}
use thoth.Broker.Process.{process_message}
use thoth.Broker.Connect.{Visit, handle_connection}

-- A message of the client at an address, a connection, and the two timers of a client: its retries, and
-- the expiry of identifiers that await a PUBREL.
pub data Event : Type 0 where
  message : World → ℕ → ControlPacket → Event
  connection : World → Visit → ClientType → Event
  retries expires : World → ℕ → Event

abbrev pub or_same : Broker → Option Broker → Broker
or_same b none = b
or_same b (some b') = b'

-- A panic ends the program; the broker is left as it was then.
abbrev pub step : Event → Broker → Broker
step (message w c packet) b = or_same b (process_message w c packet b)
step (connection w v typ) b = (handle_connection w v typ b).0
step (retries w c) b = with_peer c (with_state (retry_delivery (w.writes c) w.now)) b
step (expires w c) b = with_peer c (with_state (expire_awaiting_rel w.now)) b

abbrev pub run : List Event → Broker → Broker
run [] b = b
run (e ∷ es) b = run es (step e b)
