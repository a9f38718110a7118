-- ===== src/Client/Handshake.antt =====
-- The inflight messages of a sender: the handshakes of QoS 1 and 2 in broker/client.go and
-- broker/comm.go.
use thoth.Base.{
  ℕ, ◌≡◌, refl, ap, ◌∙◌, arith, ◌⊎◌, inl, inr, Bool, none, some, List, [], ◌∷◌, ℕ_discrete,
  Option-cases,
}
use thoth.Packets.{PublishPacket, ControlPacket}
use thoth.Assoc.{lookup, insert, remove, lookup-insert_self, remove-absent, insert-lookup}
use thoth.Client.{Client, InflightElement, InflightStatus, write_packet, close}
use thoth.Client.Outbound.{
  process_puback, received, mark_received, process_pubrec, ensure_retry_timer, published, publish,
}

pub write_packet-inflight :
    (writes : ControlPacket → Bool) (p : ControlPacket) (c : Client)
    → (write_packet writes p c).0.inflight ≡ c.inflight
unfolding write_packet close
write_packet-inflight writes p c = ground arith

pub ensure_retry_timer-inflight :
    (is : List ℕ) (c : Client) → (ensure_retry_timer is c).inflight ≡ c.inflight
unfolding ensure_retry_timer
ensure_retry_timer-inflight [] c = ground arith
ensure_retry_timer-inflight (t ∷ []) c = ground arith
ensure_retry_timer-inflight (t ∷ u ∷ is) c = ground arith

pub publish-inflight :
    (writes : ControlPacket → Bool) (now : ℕ) (packet : PublishPacket) (c : Client)
    → packet.qos ≡ 1
    → (publish writes now packet c).inflight
      ≡ insert ℕ_discrete packet.message_id (published now packet) c.inflight
unfolding publish
publish-inflight writes now packet c q = ground (arith, delivered)
  where
    delivered :
        (ensure_retry_timer []
          (write_packet writes (ControlPacket.publish packet) (record c {
            inflight = insert ℕ_discrete packet.message_id (published now packet) c.inflight;
          })).0).inflight
        ≡ insert ℕ_discrete packet.message_id (published now packet) c.inflight
    delivered =
        ensure_retry_timer-inflight []
          (write_packet writes (ControlPacket.publish packet) (record c {
            inflight = insert ℕ_discrete packet.message_id (published now packet) c.inflight;
          })).0
        ∙ write_packet-inflight writes (ControlPacket.publish packet) (record c {
          inflight = insert ℕ_discrete packet.message_id (published now packet) c.inflight;
        })

pub puback-inflight :
    (i : ℕ) (c : Client) → (process_puback i c).inflight ≡ remove ℕ_discrete i c.inflight
unfolding process_puback
puback-inflight i c = ground (arith, remove-absent ℕ_discrete i c.inflight)

pub pubrec-inflight :
    (writes : ControlPacket → Bool) (now i : ℕ) (c : Client)
    → (process_pubrec writes now i c).inflight ≡ (mark_received now i c).inflight
unfolding process_pubrec
pubrec-inflight writes now i c =
    write_packet-inflight writes (ControlPacket.pubrel i) (mark_received now i c)

received-twice :
    (now again : ℕ) (e : InflightElement) → received again (received now e) ≡ received now e
received-twice now again e = elim (status-cases e.status) [
  | inl s ↦ ground arith
  | inr s ↦ ground arith
]
  where
    status-cases : (s : InflightStatus) → (s ≡ InflightStatus.publish) ⊎ (s ≡ InflightStatus.pubrel)
    status-cases InflightStatus.publish = inl refl
    status-cases InflightStatus.pubrel = inr refl

mark-held :
    (again i : ℕ) (e : InflightElement) (d : Client)
    → lookup ℕ_discrete i d.inflight ≡ some e
    → received again e ≡ e
    → (mark_received again i d).inflight ≡ d.inflight
mark-held again i e d h r = ground (arith, insert-lookup ℕ_discrete i e d.inflight)

mark-free :
    (again i : ℕ) (d : Client)
    → lookup ℕ_discrete i d.inflight ≡ none
    → (mark_received again i d).inflight ≡ d.inflight
mark-free again i d h = ground arith

lookup-mark :
    (now i : ℕ) (e : InflightElement) (c : Client)
    → lookup ℕ_discrete i c.inflight ≡ some e
    → lookup ℕ_discrete i (mark_received now i c).inflight ≡ some (received now e)
lookup-mark now i e c h =
    ground (arith, lookup-insert_self ℕ_discrete i (received now e) c.inflight)

mark-twice :
    (now again i : ℕ) (c d : Client)
    → d.inflight ≡ (mark_received now i c).inflight
    → (mark_received again i d).inflight ≡ d.inflight
mark-twice now again i c d h = elim (Option-cases (lookup ℕ_discrete i c.inflight)) [
  | inl f ↦ mark-free again i d (ap (lookup ℕ_discrete i) (h ∙ mark-free now i c f) ∙ f)
  | inr (e, f) ↦
      mark-held again i (received now e) d (ap (lookup ℕ_discrete i) h ∙ lookup-mark now i e c f)
        (received-twice now again e)
]

-- A second PUBREC of a message changes no inflight message.
pub process_pubrec-twice :
    (writes : ControlPacket → Bool) (now again i : ℕ) (c : Client)
    → (process_pubrec writes again i (process_pubrec writes now i c)).inflight
      ≡ (process_pubrec writes now i c).inflight
process_pubrec-twice writes now again i c =
    pubrec-inflight writes again i (process_pubrec writes now i c)
    ∙ mark-twice now again i c (process_pubrec writes now i c) (pubrec-inflight writes now i c)
