-- ===== src/Client/Effects/Kinds.antt =====
-- What each call on a client of broker/client.go leaves as it is: silence, the retry timer and the
-- cancelled context.
use thoth.Base.{
  ℕ, ◌+◌, ◌-◌, ◌≡◌, refl, arith, Bool, true, false, List, [], ◌∷◌, length, leb, ◌==◌, if◌then◌else◌,
}
use thoth.Packets.{ControlPacket}
use thoth.Client.{
  Client, InflightElement, retry_interval, is_disconnected, write_packet, close, process_ping,
}
use thoth.Client.Inbound.{register_publish_packet_id, pub_rel, process_pubrel}
use thoth.Client.Outbound.{
  mark_received, ensure_retry_timer, reset_retry_timer, retry, retry_all, process_puback,
  process_pubrec, process_pubcomp, publish, retry_delivery,
}
use thoth.Client.Silence as Silence
use thoth.Client.Silence.{IsSilent, react-IsSilent, write_packet-IsSilent}
use thoth.Client.Armed.{IsArmed, react-IsArmed, write_packet-IsArmed}
use thoth.Client.Effects.{Effect, apply}

pub apply-IsSilent :
    (out : List ControlPacket) (e : Effect) (c : Client) → IsSilent out c → IsSilent out (apply e c)
unfolding register_publish_packet_id
apply-IsSilent out (Effect.writing writes packet) c h = write_packet-IsSilent out writes packet c h
apply-IsSilent out (Effect.delivery writes now packet) c h =
    react-IsSilent out writes (Silence.delivery now packet) c h
apply-IsSilent out (Effect.acceptance now i) c (d, s) = ground arith
apply-IsSilent out (Effect.puback i) c h = react-IsSilent out (λ p. true) (Silence.puback i) c h
apply-IsSilent out (Effect.pubcomp i) c h = react-IsSilent out (λ p. true) (Silence.pubcomp i) c h
apply-IsSilent out (Effect.pubrec writes now i) c h =
    react-IsSilent out writes (Silence.pubrec now i) c h
apply-IsSilent out (Effect.pubrel writes i) c h = react-IsSilent out writes (Silence.pubrel i) c h
apply-IsSilent out (Effect.ping writes) c h = react-IsSilent out writes Silence.ping c h
apply-IsSilent out Effect.closing c h = react-IsSilent out (λ p. true) Silence.closing c h
apply-IsSilent out Effect.cancelling c h = h
apply-IsSilent out (Effect.expiry now) c (d, s) = ground arith
apply-IsSilent out (Effect.timer writes now) c h = react-IsSilent out writes (Silence.timer now) c h

pub apply-IsArmed : (e : Effect) (c : Client) → IsArmed c → IsArmed (apply e c)
unfolding register_publish_packet_id
apply-IsArmed (Effect.writing writes packet) c h = write_packet-IsArmed writes packet c h
apply-IsArmed (Effect.delivery writes now packet) c h =
    react-IsArmed writes (Silence.delivery now packet) c h
apply-IsArmed (Effect.acceptance now i) c h = ground arith
apply-IsArmed (Effect.puback i) c h = react-IsArmed (λ p. true) (Silence.puback i) c h
apply-IsArmed (Effect.pubcomp i) c h = react-IsArmed (λ p. true) (Silence.pubcomp i) c h
apply-IsArmed (Effect.pubrec writes now i) c h = react-IsArmed writes (Silence.pubrec now i) c h
apply-IsArmed (Effect.pubrel writes i) c h = react-IsArmed writes (Silence.pubrel i) c h
apply-IsArmed (Effect.ping writes) c h = react-IsArmed writes Silence.ping c h
apply-IsArmed Effect.closing c h = react-IsArmed (λ p. true) Silence.closing c h
apply-IsArmed Effect.cancelling c h = h
apply-IsArmed (Effect.expiry now) c h = ground arith
apply-IsArmed (Effect.timer writes now) c h = react-IsArmed writes (Silence.timer now) c h

-- The context is cancelled.
abbrev pub IsCancelled : Client → Type 0
IsCancelled c = c.cancelled ≡ true

write_packet-IsCancelled :
    (writes : ControlPacket → Bool) (p : ControlPacket) (c : Client)
    → IsCancelled c
    → IsCancelled (write_packet writes p c).0
unfolding write_packet close
write_packet-IsCancelled writes p c h = ground arith

timer-IsCancelled :
    (is : List ℕ) (c : Client) → IsCancelled c → IsCancelled (ensure_retry_timer is c)
unfolding ensure_retry_timer
timer-IsCancelled [] c h = ground arith
timer-IsCancelled (t ∷ []) c h = ground arith
timer-IsCancelled (t ∷ u ∷ is) c h = ground arith

if-IsCancelled :
    (b : Bool) (x y : Client) → IsCancelled x → IsCancelled y → IsCancelled (if b then x else y)
if-IsCancelled true x y v w = v
if-IsCancelled false x y v w = w

retry_all-IsCancelled :
    (writes : ControlPacket → Bool) (now : ℕ) (es : List (ℕ × InflightElement)) (c : Client)
    → IsCancelled c
    → IsCancelled (retry_all writes now es c)
unfolding retry_all retry
retry_all-IsCancelled writes now [] c h = h
retry_all-IsCancelled writes now ((i, e) ∷ es) c h =
    retry_all-IsCancelled writes now es (retry writes now (i, e) c) (
      if-IsCancelled (leb (e.timestamp + retry_interval) now) _ _
        (write_packet-IsCancelled writes _ c h)
        (timer-IsCancelled ((retry_interval - (now - e.timestamp)) ∷ []) c h))

mark_received-IsCancelled :
    (now i : ℕ) (c : Client) → IsCancelled c → IsCancelled (mark_received now i c)
mark_received-IsCancelled now i c h = ground arith

pub_rel-IsCancelled : (i : ℕ) (c : Client) → IsCancelled c → IsCancelled (pub_rel i c).0
unfolding pub_rel
pub_rel-IsCancelled i c h = ground arith

-- A cancelled context stays so.
pub apply-IsCancelled : (e : Effect) (c : Client) → IsCancelled c → IsCancelled (apply e c)
unfolding register_publish_packet_id process_puback process_pubcomp process_pubrec process_pubrel
    process_ping close publish retry_delivery
apply-IsCancelled (Effect.writing writes packet) c h = write_packet-IsCancelled writes packet c h
apply-IsCancelled (Effect.delivery writes now packet) c h =
    if-IsCancelled (packet.qos == 0) _ _
      (write_packet-IsCancelled writes (ControlPacket.publish packet) c h)
      (if-IsCancelled (packet.qos == 1) _ c
        (timer-IsCancelled [] _
          (write_packet-IsCancelled writes (ControlPacket.publish packet) _ h))
        h)
apply-IsCancelled (Effect.acceptance now i) c h = ground arith
apply-IsCancelled (Effect.puback i) c h = ground arith
apply-IsCancelled (Effect.pubcomp i) c h = h
apply-IsCancelled (Effect.pubrec writes now i) c h =
    write_packet-IsCancelled writes (ControlPacket.pubrel i) (mark_received now i c)
      (mark_received-IsCancelled now i c h)
apply-IsCancelled (Effect.pubrel writes i) c h =
    write_packet-IsCancelled writes (ControlPacket.pubcomp i) (pub_rel i c).0
      (pub_rel-IsCancelled i c h)
apply-IsCancelled (Effect.ping writes) c h =
    if-IsCancelled (is_disconnected c.status) c _ h
      (write_packet-IsCancelled writes ControlPacket.pingresp c h)
apply-IsCancelled Effect.closing c h = ground arith
apply-IsCancelled Effect.cancelling c h = refl
apply-IsCancelled (Effect.expiry now) c h = ground arith
apply-IsCancelled (Effect.timer writes now) c h =
    if-IsCancelled c.conn _ (reset_retry_timer c)
      (if-IsCancelled (length c.inflight == 0) (reset_retry_timer c) _ h (
        timer-IsCancelled [] _
          (retry_all-IsCancelled writes now c.inflight (reset_retry_timer c) h)))
      h
