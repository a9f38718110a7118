-- ===== src/Client/Outbound.antt =====
-- The sender's side of QoS 1 and 2: the inflight messages in `ProcessMessage` of broker/client.go,
-- and `publish` of broker/comm.go with the retry timer.
use thoth.Base.{
  ℕ, ◌+◌, ◌-◌, Bool, none, some, List, [], ◌∷◌, ℕ_discrete, length, ◌==◌, leb, if◌then◌else◌,
}
use thoth.Packets.{PublishPacket, ControlPacket}
use thoth.Assoc.{lookup, insert, remove}
use thoth.Client.{Client, InflightElement, InflightStatus, retry_interval, write_packet}

-- PUBACK: a duplicate is only logged.
unfoldable pub process_puback : ℕ → Client → Client
process_puback message_id c = elim (lookup ℕ_discrete message_id c.inflight) [
  | none ↦ c
  | some e ↦ record c { inflight = remove ℕ_discrete message_id c.inflight }
]

-- `ielem.status = Pubrel` through the pointer that the map holds.
abbrev pub received : ℕ → InflightElement → InflightElement
received now e = elim e.status [
  | InflightStatus.publish ↦ record e { status = InflightStatus.pubrel; timestamp = now }
  | InflightStatus.pubrel ↦ e
]

abbrev pub mark_received : ℕ → ℕ → Client → Client
mark_received now message_id c = elim (lookup ℕ_discrete message_id c.inflight) [
  | none ↦ c
  | some e ↦ record c { inflight = insert ℕ_discrete message_id (received now e) c.inflight }
]

-- PUBREC: the PUBREL is written in each case.
unfoldable pub process_pubrec : (ControlPacket → Bool) → ℕ → ℕ → Client → Client
process_pubrec writes now message_id c =
    (write_packet writes (ControlPacket.pubrel message_id) (mark_received now message_id c)).0

-- PUBCOMP
unfoldable pub process_pubcomp : ℕ → Client → Client
process_pubcomp message_id c = record c { inflight = remove ℕ_discrete message_id c.inflight }

-- `ensureRetryTimer`, with its variadic argument.
unfoldable pub ensure_retry_timer : List ℕ → Client → Client
ensure_retry_timer interval c = elim c.retry_timer [
  | some t ↦ c
  | none ↦ elim interval [
    | [] ↦ record c { retry_timer = some retry_interval }
    | t ∷ more ↦ elim more [ [] ↦ record c { retry_timer = some t } | u ∷ rest ↦ c ]
  ]
]

abbrev pub reset_retry_timer : Client → Client
reset_retry_timer c = record c { retry_timer = none }

abbrev pub published : ℕ → PublishPacket → InflightElement
published now packet = record { status = InflightStatus.publish; packet = packet; timestamp = now }

-- `publish` to the client of a subscription; the errors of `WritePacket` are only logged.
unfoldable pub publish : (ControlPacket → Bool) → ℕ → PublishPacket → Client → Client
publish writes now packet c =
    if packet.qos == 0
    then (write_packet writes (ControlPacket.publish packet) c).0
    else if packet.qos == 1
    then ensure_retry_timer []
        (write_packet writes (ControlPacket.publish packet) (record c {
          inflight = insert ℕ_discrete packet.message_id (published now packet) c.inflight;
        })).0
    else c

-- One element of the loop of `retryDelivery`. A negative age counts as 0, as subtraction does.
unfoldable pub retry : (ControlPacket → Bool) → ℕ → ℕ × InflightElement → Client → Client
retry writes now (message_id, e) c =
    if leb (e.timestamp + retry_interval) now
    then (let c' =
          (write_packet writes
            (elim e.status [
              | InflightStatus.publish ↦ ControlPacket.publish e.packet
              | InflightStatus.pubrel ↦ ControlPacket.pubrel e.packet.message_id
            ])
            c).0 in
        record c' {
          inflight = insert ℕ_discrete message_id (record e { timestamp = now }) c'.inflight;
        })
    else ensure_retry_timer ((retry_interval - (now - e.timestamp)) ∷ []) c

unfoldable pub retry_all : (ControlPacket → Bool) → ℕ → List (ℕ × InflightElement) → Client → Client
retry_all writes now [] c = c
retry_all writes now (e ∷ es) c = retry_all writes now es (retry writes now e c)

unfoldable pub retry_delivery : (ControlPacket → Bool) → ℕ → Client → Client
retry_delivery writes now c =
    if c.conn
    then (if length c.inflight == 0
        then reset_retry_timer c
        else ensure_retry_timer [] (retry_all writes now c.inflight (reset_retry_timer c)))
    else reset_retry_timer c
