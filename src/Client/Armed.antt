-- ===== src/Client/Armed.antt =====
-- The retry timer of broker/comm.go: it runs while a message waits for its acknowledgement.
use thoth.Base.{
  ℕ, ◌≡◌, refl, arith, Bool, true, false, Option, none, some, List, [], ◌∷◌, ℕ_discrete, length,
  ◌==◌, if◌then◌else◌,
}
use thoth.Packets.{ControlPacket}
use thoth.Assoc.{lookup, insert, length-remove_le, length-insert_old}
use thoth.Client.{Client, InflightElement, is_disconnected, write_packet, close, process_ping}
use thoth.Client.Inbound.{pub_rel, process_pubrel}
use thoth.Client.Outbound.{
  process_puback, received, mark_received, process_pubrec, process_pubcomp, ensure_retry_timer,
  reset_retry_timer, publish, retry_all, retry_delivery,
}
use thoth.Client.Silence.{
  Input, puback, pubcomp, pubrel, pubrec, ping, closing, delivery, timer, react, react_all,
}

abbrev pub runs : Option ℕ → Bool
runs none = false
runs (some t) = true

abbrev armed : Client → Bool
armed c = if c.conn then (if length c.inflight == 0 then true else runs c.retry_timer) else true

-- There is no connection, or no inflight message, or the timer runs.
abbrev pub IsArmed : Client → Type 0
IsArmed c = armed c ≡ true

pub write_packet-IsArmed :
    (writes : ControlPacket → Bool) (p : ControlPacket) (c : Client)
    → IsArmed c
    → IsArmed (write_packet writes p c).0
unfolding write_packet close
write_packet-IsArmed writes p c h = ground arith

puback-IsArmed : (i : ℕ) (c : Client) → IsArmed c → IsArmed (process_puback i c)
unfolding process_puback
puback-IsArmed i c h = ground (arith, length-remove_le ℕ_discrete i c.inflight)

pubcomp-IsArmed : (i : ℕ) (c : Client) → IsArmed c → IsArmed (process_pubcomp i c)
unfolding process_pubcomp
pubcomp-IsArmed i c h = ground (arith, length-remove_le ℕ_discrete i c.inflight)

pub_rel-IsArmed : (i : ℕ) (c : Client) → IsArmed c → IsArmed (pub_rel i c).0
unfolding pub_rel
pub_rel-IsArmed i c h = ground arith

mark-IsArmed : (now i : ℕ) (c : Client) → IsArmed c → IsArmed (mark_received now i c)
mark-IsArmed now i c h = marked (lookup ℕ_discrete i c.inflight) refl
  where
    marked :
        (o : Option InflightElement)
        → lookup ℕ_discrete i c.inflight ≡ o
        → IsArmed (elim o as (λ x. Client) [
          | none ↦ c
          | some e ↦ record c { inflight = insert ℕ_discrete i (received now e) c.inflight }
        ])
    marked none q = h
    marked (some e) q =
        ground (arith, length-insert_old ℕ_discrete i (received now e) e c.inflight q)

if-IsArmed : (b : Bool) (x y : Client) → IsArmed x → IsArmed y → IsArmed (if b then x else y)
if-IsArmed true x y v w = v
if-IsArmed false x y v w = w

timer-IsArmed : (c : Client) → IsArmed (ensure_retry_timer [] c)
unfolding ensure_retry_timer
timer-IsArmed c = ground arith

reset-IsArmed : (c : Client) → (length c.inflight == 0) ≡ true → IsArmed (reset_retry_timer c)
reset-IsArmed c h = ground arith

close-IsArmed : (c : Client) → IsArmed c → IsArmed (close c)
unfolding close
close-IsArmed c h = ground arith

fired-IsArmed :
    (writes : ControlPacket → Bool) (now : ℕ) (c : Client) → IsArmed (retry_delivery writes now c)
unfolding retry_delivery
fired-IsArmed writes now c =
    ground (
      arith,
      timer-IsArmed (retry_all writes now c.inflight (reset_retry_timer c)),
      reset-IsArmed c,
    )

pub react-IsArmed :
    (writes : ControlPacket → Bool) (i : Input) (c : Client)
    → IsArmed c
    → IsArmed (react writes i c)
unfolding process_pubrel process_pubrec process_ping publish
react-IsArmed writes (puback i) c h = puback-IsArmed i c h
react-IsArmed writes (pubcomp i) c h = pubcomp-IsArmed i c h
react-IsArmed writes (pubrel i) c h =
    write_packet-IsArmed writes (ControlPacket.pubcomp i) (pub_rel i c).0 (pub_rel-IsArmed i c h)
react-IsArmed writes (pubrec now i) c h =
    write_packet-IsArmed writes (ControlPacket.pubrel i) (mark_received now i c)
      (mark-IsArmed now i c h)
react-IsArmed writes ping c h =
    if-IsArmed (is_disconnected c.status) c _ h
      (write_packet-IsArmed writes ControlPacket.pingresp c h)
react-IsArmed writes closing c h = close-IsArmed c h
react-IsArmed writes (delivery now packet) c h =
    if-IsArmed (packet.qos == 0) _ _
      (write_packet-IsArmed writes (ControlPacket.publish packet) c h)
      (if-IsArmed (packet.qos == 1) _ c (timer-IsArmed _) h)
react-IsArmed writes (timer now) c h = fired-IsArmed writes now c

-- Whatever acknowledgements, deliveries, timer calls and closings follow each other, and whether
-- writes succeed or not: while the client has a connection and an inflight message, its retry
-- timer runs, if that is so at the start.
pub react_all-IsArmed :
    (writes : ControlPacket → Bool) (is : List Input) (c : Client)
    → IsArmed c
    → IsArmed (react_all writes is c)
react_all-IsArmed writes [] c h = h
react_all-IsArmed writes (i ∷ is) c h =
    react_all-IsArmed writes is (react writes i c) (react-IsArmed writes i c h)
