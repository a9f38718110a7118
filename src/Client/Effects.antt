-- ===== src/Client/Effects.antt =====
-- All that the broker does to the handshakes of a client of broker/client.go, one call each.
pub mod Kinds
use thoth.Base.{ℕ, Bool, true}
use thoth.Packets.{PublishPacket, ControlPacket}
use thoth.Client.{Client, write_packet, close, process_ping}
use thoth.Client.Inbound.{register_publish_packet_id, expire_awaiting_rel, process_pubrel}
use thoth.Client.Outbound.{process_puback, process_pubrec, process_pubcomp, publish, retry_delivery}

-- A call of a method, with the outcomes of the writes and the time; `cancelling` is the call of
-- `cancelFunc` in `readLoop`.
pub data Effect : Type 0 where
  writing : (ControlPacket → Bool) → ControlPacket → Effect
  delivery : (ControlPacket → Bool) → ℕ → PublishPacket → Effect
  acceptance : ℕ → ℕ → Effect
  puback pubcomp : ℕ → Effect
  pubrec : (ControlPacket → Bool) → ℕ → ℕ → Effect
  pubrel : (ControlPacket → Bool) → ℕ → Effect
  ping : (ControlPacket → Bool) → Effect
  closing cancelling : Effect
  expiry : ℕ → Effect
  timer : (ControlPacket → Bool) → ℕ → Effect

abbrev pub apply : Effect → Client → Client
apply (writing writes packet) c = (write_packet writes packet c).0
apply (delivery writes now packet) c = publish writes now packet c
apply (acceptance now i) c = (register_publish_packet_id now i c).0
apply (puback i) c = process_puback i c
apply (pubcomp i) c = process_pubcomp i c
apply (pubrec writes now i) c = process_pubrec writes now i c
apply (pubrel writes i) c = process_pubrel writes i c
apply (ping writes) c = process_ping writes c
apply closing c = close c
apply cancelling c = record c { cancelled = true }
apply (expiry now) c = expire_awaiting_rel now c
apply (timer writes now) c = retry_delivery writes now c
