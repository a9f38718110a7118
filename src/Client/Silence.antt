-- ===== src/Client/Silence.antt =====
-- What a closed connection of broker/client.go still does: nothing is written to it.
use thoth.Base.{
  ℕ, ◌+◌, ◌-◌, ℕ_discrete, if◌then◌else◌, ◌≡◌, arith, Bool, true, false, List, [], ◌∷◌, length,
  ◌==◌, leb,
}
use thoth.Packets.{PublishPacket, ControlPacket}
use thoth.Assoc.{insert}
use thoth.Client.{
  retry_interval, Client, InflightElement, is_disconnected, write_packet, close, process_ping,
}
use thoth.Client.Inbound.{pub_rel, process_pubrel}
use thoth.Client.Outbound.{
  process_puback, mark_received, process_pubrec, process_pubcomp, ensure_retry_timer,
  reset_retry_timer, published, publish, retry, retry_all, retry_delivery,
}

-- Closed, and with this written so far.
abbrev pub IsSilent : List ControlPacket → Client → Type 0
IsSilent out c = (is_disconnected c.status ≡ true) × (c.sent ≡ out)

-- The inputs of a connection.
pub data Input : Type 0 where
  puback pubcomp pubrel : ℕ → Input
  pubrec : ℕ → ℕ → Input
  ping closing : Input
  delivery : ℕ → PublishPacket → Input
  timer : ℕ → Input

abbrev pub react : (ControlPacket → Bool) → Input → Client → Client
react writes (puback i) c = process_puback i c
react writes (pubcomp i) c = process_pubcomp i c
react writes (pubrel i) c = process_pubrel writes i c
react writes (pubrec now i) c = process_pubrec writes now i c
react writes ping c = process_ping writes c
react writes closing c = close c
react writes (delivery now packet) c = publish writes now packet c
react writes (timer now) c = retry_delivery writes now c

abbrev pub react_all : (ControlPacket → Bool) → List Input → Client → Client
react_all writes [] c = c
react_all writes (i ∷ is) c = react_all writes is (react writes i c)

abbrev tracked : ℕ → PublishPacket → Client → Client
tracked now packet c = record c {
  inflight = insert ℕ_discrete packet.message_id (published now packet) c.inflight;
}

pub close-IsSilent : (c : Client) → IsSilent c.sent (close c)
unfolding close
close-IsSilent c = ground arith

module _ (out : List ControlPacket) (writes : ControlPacket → Bool) where
  pub write_packet-IsSilent :
      (p : ControlPacket) (c : Client) → IsSilent out c → IsSilent out (write_packet writes p c).0
  unfolding write_packet
  write_packet-IsSilent p c (d, s) = ground arith

  timer-IsSilent :
      (is : List ℕ) (c : Client) → IsSilent out c → IsSilent out (ensure_retry_timer is c)
  unfolding ensure_retry_timer
  timer-IsSilent [] c (d, s) = ground arith
  timer-IsSilent (t ∷ []) c (d, s) = ground arith
  timer-IsSilent (t ∷ u ∷ is) c (d, s) = ground arith

  if-IsSilent :
      (b : Bool) (x y : Client)
      → IsSilent out x
      → IsSilent out y
      → IsSilent out (if b then x else y)
  if-IsSilent true x y v w = v
  if-IsSilent false x y v w = w

  mark_received-IsSilent :
      (now i : ℕ) (c : Client) → IsSilent out c → IsSilent out (mark_received now i c)
  mark_received-IsSilent now i c (d, s) = ground arith

  pub_rel-IsSilent : (i : ℕ) (c : Client) → IsSilent out c → IsSilent out (pub_rel i c).0
  unfolding pub_rel
  pub_rel-IsSilent i c (d, s) = ground arith

  retry-IsSilent :
      (now : ℕ) (e : ℕ × InflightElement) (c : Client)
      → IsSilent out c
      → IsSilent out (retry writes now e c)
  unfolding retry
  retry-IsSilent now (i, e) c w =
      if-IsSilent (leb (e.timestamp + retry_interval) now) _ _ (write_packet-IsSilent _ c w)
        (timer-IsSilent ((retry_interval - (now - e.timestamp)) ∷ []) c w)

  retry_all-IsSilent :
      (now : ℕ) (es : List (ℕ × InflightElement)) (c : Client)
      → IsSilent out c
      → IsSilent out (retry_all writes now es c)
  unfolding retry_all
  retry_all-IsSilent now [] c w = w
  retry_all-IsSilent now (e ∷ es) c w =
      retry_all-IsSilent now es (retry writes now e c) (retry-IsSilent now e c w)

  pub react-IsSilent : (i : Input) (c : Client) → IsSilent out c → IsSilent out (react writes i c)
  unfolding process_puback process_pubcomp process_pubrel pub_rel process_pubrec process_ping close
      publish retry_delivery
  react-IsSilent (puback i) c (d, s) = ground arith
  react-IsSilent (pubcomp i) c w = w
  react-IsSilent (pubrel i) c w =
      write_packet-IsSilent (ControlPacket.pubcomp i) (pub_rel i c).0 (pub_rel-IsSilent i c w)
  react-IsSilent (pubrec now i) c w =
      write_packet-IsSilent (ControlPacket.pubrel i) (mark_received now i c)
        (mark_received-IsSilent now i c w)
  react-IsSilent ping c (d, s) = ground arith
  react-IsSilent closing c (d, s) = ground arith
  react-IsSilent (delivery now packet) c w =
      if-IsSilent (packet.qos == 0) _ _ (write_packet-IsSilent (ControlPacket.publish packet) c w) (
        if-IsSilent (packet.qos == 1) _ c
          (timer-IsSilent []
            (write_packet writes (ControlPacket.publish packet) (tracked now packet c)).0
            (write_packet-IsSilent (ControlPacket.publish packet) (tracked now packet c) w))
          w)
  react-IsSilent (timer now) c w =
      if-IsSilent c.conn _ (reset_retry_timer c)
        (if-IsSilent (length c.inflight == 0) (reset_retry_timer c) _ w (
          timer-IsSilent [] (retry_all writes now c.inflight (reset_retry_timer c))
            (retry_all-IsSilent now c.inflight (reset_retry_timer c) w)))
        w

  react_all-IsSilent :
      (is : List Input) (c : Client) → IsSilent out c → IsSilent out (react_all writes is c)
  react_all-IsSilent [] c w = w
  react_all-IsSilent (i ∷ is) c w = react_all-IsSilent is (react writes i c) (react-IsSilent i c w)

-- After `Close`, nothing is written to the connection, whatever packets, deliveries and timer
-- calls come, and it stays closed.
pub close-silences :
    (writes : ControlPacket → Bool) (is : List Input) (c : Client)
    → IsSilent c.sent (react_all writes is (close c))
close-silences writes is c = react_all-IsSilent c.sent writes is (close c) (close-IsSilent c)
