-- ===== src/Client/Inflight.antt =====
-- How long a message of QoS 1 stays inflight: the inputs of a connection in broker/client.go and
-- broker/comm.go.
use thoth.Base.{
  ℕ, ◌+◌, ◌-◌, ◌≡◌, ◌≢◌, refl, sym, subst, ap, ◌∙◌, arith, inl, inr, Bool, true, false, none, some,
  List, [], ◌∷◌, ℕ_discrete, leb, ◌==◌, length, if◌then◌else◌, Option-cases,
}
use thoth.Packets.{PublishPacket, ControlPacket}
use thoth.All.{All}
use thoth.Assoc.{lookup, insert, lookup-insert_self, lookup-remove_ne, lookup-remove_self}
use thoth.Client.{
  Client, InflightElement, InflightStatus, retry_interval, write_packet, close, process_ping,
}
use thoth.Client.Inbound.{process_pubrel, pub_rel}
use thoth.Client.Outbound.{
  process_puback, received, mark_received, process_pubcomp, ensure_retry_timer, reset_retry_timer,
  published, publish, retry, retry_all, retry_delivery,
}
use thoth.Client.Handshake.{
  write_packet-inflight, ensure_retry_timer-inflight, publish-inflight, puback-inflight,
  pubrec-inflight,
}
use thoth.Client.Silence.{Input, react, react_all}
use thoth.Client.Carried.{
  Inflight, Carries, Keeps, All-insert, All-lookup, All-none, insert-Keeps, remove-Keeps,
}

-- The input neither ends the handshake of the identifier nor delivers another message under it.
abbrev pub IsQuiet : ℕ → Input → Type 0
IsQuiet i (Input.puback j) = j ≢ i
IsQuiet i (Input.pubcomp j) = j ≢ i
IsQuiet i (Input.delivery now packet) = packet.message_id ≢ i
IsQuiet i other = Unit

module _ (i : ℕ) (packet : PublishPacket) where
  received-packet : (now : ℕ) (e : InflightElement) → (received now e).packet ≡ e.packet
  received-packet now e =
      elim e.status
        as (λ x.
          (elim x as (λ z. InflightElement) [
            | InflightStatus.publish ↦ record e { status = InflightStatus.pubrel; timestamp = now }
            | InflightStatus.pubrel ↦ e
          ]).packet
          ≡ e.packet) [ InflightStatus.publish ↦ refl | InflightStatus.pubrel ↦ refl ]

  mark-Keeps :
      (now j : ℕ) (c : Client)
      → Keeps i packet c.inflight
      → Keeps i packet (mark_received now j c).inflight
  mark-Keeps now j c k = elim (Option-cases (lookup ℕ_discrete j c.inflight)) [
    | inl q ↦ rw (q, mark_received) k
    | inr (e, q) ↦
        rw (q, mark_received)
          (insert-Keeps i packet j (received now e) c.inflight
            (λ r. received-packet now e ∙ All-lookup i packet j e c.inflight k.0 q r) k)
  ]

  retry-Keeps :
      (writes : ControlPacket → Bool) (now : ℕ) (x : ℕ × InflightElement) (c : Client)
      → Carries i packet x
      → Keeps i packet c.inflight
      → Keeps i packet (retry writes now x c).inflight
  unfolding retry
  retry-Keeps writes now (j, e) c p k = late (leb (e.timestamp + retry_interval) now)
    where
      sends : InflightStatus → ControlPacket
      sends InflightStatus.publish = ControlPacket.publish e.packet
      sends InflightStatus.pubrel = ControlPacket.pubrel e.packet.message_id

      resent :
          (out : ControlPacket)
          → Keeps i packet (
              insert ℕ_discrete j
                (record e { timestamp = now })
                (write_packet writes out c).0.inflight)
      resent out =
          insert-Keeps i packet j (record e { timestamp = now })
            (write_packet writes out c).0.inflight p
            (subst (Keeps i packet) (sym (write_packet-inflight writes out c)) k)

      late :
          (y : Bool)
          → Keeps i packet
              (if y
                then (let c' =
                      (write_packet writes
                        (elim e.status [
                          | InflightStatus.publish ↦ ControlPacket.publish e.packet
                          | InflightStatus.pubrel ↦ ControlPacket.pubrel e.packet.message_id
                        ])
                        c).0 in
                    record c' {
                      inflight = insert ℕ_discrete j (record e { timestamp = now }) c'.inflight;
                    })
                else ensure_retry_timer ((retry_interval - (now - e.timestamp)) ∷ []) c).inflight
      late true = resent _
      late false =
          subst (Keeps i packet)
            (sym (ensure_retry_timer-inflight ((retry_interval - (now - e.timestamp)) ∷ []) c)) k

  retry_all-Keeps :
      (writes : ControlPacket → Bool) (now : ℕ) (es : Inflight) (c : Client)
      → All (Carries i packet) es
      → Keeps i packet c.inflight
      → Keeps i packet (retry_all writes now es c).inflight
  unfolding retry_all
  retry_all-Keeps writes now [] c h k = k
  retry_all-Keeps writes now (e ∷ es) c h k =
      retry_all-Keeps writes now es (retry writes now e c) h.1 (retry-Keeps writes now e c h.0 k)

  if-Keeps :
      (y : Bool) (c d : Client)
      → Keeps i packet c.inflight
      → Keeps i packet d.inflight
      → Keeps i packet (if y then c else d).inflight
  if-Keeps true c d k l = k
  if-Keeps false c d k l = l

  publish-Keeps :
      (writes : ControlPacket → Bool) (now : ℕ) (p : PublishPacket) (c : Client)
      → p.message_id ≢ i
      → Keeps i packet c.inflight
      → Keeps i packet (publish writes now p c).inflight
  unfolding publish
  publish-Keeps writes now p c n k =
      let tracked = record c {
        inflight = insert ℕ_discrete p.message_id (published now p) c.inflight;
      } in
      if-Keeps (p.qos == 0) (write_packet writes (ControlPacket.publish p) c).0 _
        (subst (Keeps i packet) (sym (write_packet-inflight writes (ControlPacket.publish p) c)) k)
        (if-Keeps (p.qos == 1)
          (ensure_retry_timer [] (write_packet writes (ControlPacket.publish p) tracked).0) c
          (subst (Keeps i packet)
            (sym (
              ensure_retry_timer-inflight []
                (write_packet writes (ControlPacket.publish p) tracked).0
              ∙ write_packet-inflight writes (ControlPacket.publish p) tracked))
            (insert-Keeps i packet p.message_id (published now p) c.inflight (λ r. absurd (n r)) k))
          k)

  retry_delivery-Keeps :
      (writes : ControlPacket → Bool) (now : ℕ) (c : Client)
      → Keeps i packet c.inflight
      → Keeps i packet (retry_delivery writes now c).inflight
  unfolding retry_delivery
  retry_delivery-Keeps writes now c k =
      if-Keeps c.conn
        (if length c.inflight == 0
          then reset_retry_timer c
          else ensure_retry_timer [] (retry_all writes now c.inflight (reset_retry_timer c)))
        (reset_retry_timer c)
        (if-Keeps (length c.inflight == 0) (reset_retry_timer c)
          (ensure_retry_timer [] (retry_all writes now c.inflight (reset_retry_timer c))) k
          (subst (Keeps i packet)
            (sym (
              ensure_retry_timer-inflight []
                (retry_all writes now c.inflight (reset_retry_timer c))))
            (retry_all-Keeps writes now c.inflight (reset_retry_timer c) k.0 k)))
        k

  pubrel-inflight :
      (writes : ControlPacket → Bool) (j : ℕ) (c : Client)
      → (process_pubrel writes j c).inflight ≡ c.inflight
  unfolding process_pubrel pub_rel
  pubrel-inflight writes j c =
      write_packet-inflight writes (ControlPacket.pubcomp j) (pub_rel j c).0 ∙ ground arith

  quiet-inflight :
      (writes : ControlPacket → Bool) (c : Client)
      → ((process_ping writes c).inflight ≡ c.inflight) × ((close c).inflight ≡ c.inflight)
  unfolding process_ping close
  quiet-inflight writes c =
      let w = write_packet-inflight writes ControlPacket.pingresp c in (ground arith, ground arith)

  react-Keeps :
      (writes : ControlPacket → Bool) (x : Input) (c : Client)
      → IsQuiet i x
      → Keeps i packet c.inflight
      → Keeps i packet (react writes x c).inflight
  unfolding process_pubcomp
  react-Keeps writes (Input.puback j) c n k =
      subst (Keeps i packet) (sym (puback-inflight j c)) (remove-Keeps i packet j c.inflight n k)
  react-Keeps writes (Input.pubcomp j) c n k = remove-Keeps i packet j c.inflight n k
  react-Keeps writes (Input.pubrel j) c n k =
      subst (Keeps i packet) (sym (pubrel-inflight writes j c)) k
  react-Keeps writes (Input.pubrec now j) c n k =
      subst (Keeps i packet) (sym (pubrec-inflight writes now j c)) (mark-Keeps now j c k)
  react-Keeps writes Input.ping c n k = subst (Keeps i packet) (sym (quiet-inflight writes c).0) k
  react-Keeps writes Input.closing c n k =
      subst (Keeps i packet) (sym (quiet-inflight writes c).1) k
  react-Keeps writes (Input.delivery now p) c n k = publish-Keeps writes now p c n k
  react-Keeps writes (Input.timer now) c n k = retry_delivery-Keeps writes now c k

  react_all-Keeps :
      (writes : ControlPacket → Bool) (xs : List Input) (c : Client)
      → All (IsQuiet i) xs
      → Keeps i packet c.inflight
      → Keeps i packet (react_all writes xs c).inflight
  react_all-Keeps writes [] c q k = k
  react_all-Keeps writes (x ∷ xs) c q k =
      react_all-Keeps writes xs (react writes x c) q.1 (react-Keeps writes x c q.0 k)

-- A message of QoS 1 is published under an identifier that is free; then come any inputs but a
-- PUBACK or PUBCOMP of that identifier and but another message under it. Then this message is inflight under the
-- identifier; a PUBACK takes it away, and leaves what is inflight under any other identifier.
pub process_puback-react_all :
    (writes : ControlPacket → Bool) (now : ℕ) (packet : PublishPacket) (xs : List Input) (other : ℕ)
    (c : Client)
    → packet.qos ≡ 1
    → lookup ℕ_discrete packet.message_id c.inflight ≡ none
    → All (IsQuiet packet.message_id) xs
    → packet.message_id ≢ other
    → let i = packet.message_id in
      let d = react_all writes xs (publish writes now packet c) in
      ((e : InflightElement) × (lookup ℕ_discrete i d.inflight ≡ some e) × (e.packet ≡ packet))
      × (lookup ℕ_discrete i (process_puback i d).inflight ≡ none)
      × (lookup ℕ_discrete other (process_puback i d).inflight ≡ lookup ℕ_discrete other d.inflight)
process_puback-react_all writes now packet xs other c q free quiet n =
    let i = packet.message_id in
    let d = react_all writes xs (publish writes now packet c) in
    let (h, e, s) : Keeps i packet d.inflight =
      react_all-Keeps i packet writes xs (publish writes now packet c) quiet (
        subst (Keeps i packet) (sym (publish-inflight writes now packet c q)) (
          All-insert i packet i (published now packet) c.inflight (λ r. refl)
              (All-none i packet c.inflight free),
          published now packet,
          lookup-insert_self ℕ_discrete i (published now packet) c.inflight,
        )) in
    let gone = puback-inflight i d in
    (
      (e, s, All-lookup i packet i e d.inflight h s refl),
      ap (lookup ℕ_discrete i) gone ∙ lookup-remove_self ℕ_discrete i d.inflight,
      ap (lookup ℕ_discrete other) gone ∙ lookup-remove_ne ℕ_discrete d.inflight n,
    )
