-- ===== src/Client/Once.antt =====
-- The identifiers of QoS 2 that await a PUBREL: the steps of broker/client.go that touch `awaitingRel`.
use thoth.Base.{
  ℕ, ◌+◌, ◌<◌, ◌≡◌, ◌≢◌, ap, ◌∙◌, arith, inl, inr, Bool, none, some, List, [], ◌∷◌, ℕ_discrete,
  Bool-cases,
}
use thoth.Packets.{ControlPacket}
use thoth.Assoc.{lookup, lookup-insert, lookup-insert_self, lookup-remove_ne}
use thoth.Client.{
  Client, ClientError, too_many_awaiting_rel, packet_identifier_in_use, write_packet, close,
  await_rel_timeout,
}
use thoth.Client.Inbound.{
  is_awaiting_full, register_publish_packet_id, unexpired, expire_awaiting_rel, pub_rel,
  process_pubrel,
}

pub data Event : Type 0 where
  published : ℕ → ℕ → Event
  released : (ControlPacket → Bool) → ℕ → Event
  expired : ℕ → Event

abbrev pub step : Event → Client → Client
step (published now message_id) c = (register_publish_packet_id now message_id c).0
step (released writes message_id) c = process_pubrel writes message_id c
step (expired now) c = expire_awaiting_rel now c

abbrev pub run : List Event → Client → Client
run [] c = c
run (e ∷ es) c = run es (step e c)

-- The event does not release the identifier, and comes before its timeout.
abbrev pub IsQuiet : ℕ → ℕ → Event → Type 0
IsQuiet message_id t (published now i) = Unit
IsQuiet message_id t (released writes i) = i ≢ message_id
IsQuiet message_id t (expired now) = now < t + await_rel_timeout

abbrev pub AllQuiet : ℕ → ℕ → List Event → Type 0
AllQuiet message_id t [] = Unit
AllQuiet message_id t (e ∷ es) = IsQuiet message_id t e × AllQuiet message_id t es

pub write_packet-awaiting :
    (writes : ControlPacket → Bool) (p : ControlPacket) (c : Client)
    → ((write_packet writes p c).0.awaiting_rel ≡ c.awaiting_rel)
      × ((write_packet writes p c).0.max_awaiting_rel ≡ c.max_awaiting_rel)
unfolding write_packet close
write_packet-awaiting writes p c = ground arith

register-lookup :
    (now i j t : ℕ) (c : Client)
    → lookup ℕ_discrete j c.awaiting_rel ≡ some t
    → lookup ℕ_discrete j (register_publish_packet_id now i c).0.awaiting_rel ≡ some t
unfolding register_publish_packet_id
register-lookup now i j t c h = ground (arith, lookup-insert ℕ_discrete i j now c.awaiting_rel)

lookup-unexpired :
    (now i t : ℕ) (m : List (ℕ × ℕ))
    → now < t + await_rel_timeout
    → lookup ℕ_discrete i m ≡ some t
    → lookup ℕ_discrete i (unexpired now m) ≡ some t
unfolding lookup unexpired
lookup-unexpired now i t [] l h = h
lookup-unexpired now i t ((j, u) ∷ m) l h = ground (arith, lookup-unexpired now i t m l)

expire-lookup :
    (now i t : ℕ) (c : Client)
    → now < t + await_rel_timeout
    → lookup ℕ_discrete i c.awaiting_rel ≡ some t
    → lookup ℕ_discrete i (expire_awaiting_rel now c).awaiting_rel ≡ some t
expire-lookup now i t c l h = ground (arith, lookup-unexpired now i t c.awaiting_rel l h)

pub_rel-lookup :
    (i j t : ℕ) (c : Client)
    → i ≢ j
    → lookup ℕ_discrete j c.awaiting_rel ≡ some t
    → lookup ℕ_discrete j (pub_rel i c).0.awaiting_rel ≡ some t
unfolding pub_rel
pub_rel-lookup i j t c n h = ground (arith, lookup-remove_ne ℕ_discrete c.awaiting_rel n)

step-lookup :
    (e : Event) (i t : ℕ) (c : Client)
    → IsQuiet i t e
    → lookup ℕ_discrete i c.awaiting_rel ≡ some t
    → lookup ℕ_discrete i (step e c).awaiting_rel ≡ some t
unfolding process_pubrel
step-lookup (published now j) i t c q h = register-lookup now j i t c h
step-lookup (released writes j) i t c q h =
    ap (lookup ℕ_discrete i)
      (write_packet-awaiting writes (ControlPacket.pubcomp j) (pub_rel j c).0).0
    ∙ pub_rel-lookup j i t c q h
step-lookup (expired now) i t c q h = expire-lookup now i t c q h

run-lookup :
    (es : List Event) (i t : ℕ) (c : Client)
    → AllQuiet i t es
    → lookup ℕ_discrete i c.awaiting_rel ≡ some t
    → lookup ℕ_discrete i (run es c).awaiting_rel ≡ some t
run-lookup [] i t c q h = h
run-lookup (e ∷ es) i t c (q, qs) h = run-lookup es i t (step e c) qs (step-lookup e i t c q h)

register-held :
    (now i t : ℕ) (c : Client)
    → lookup ℕ_discrete i c.awaiting_rel ≡ some t
    → (e : ClientError) × (register_publish_packet_id now i c ≡ (c, some e))
unfolding register_publish_packet_id
register-held now i t c h = elim (Bool-cases (is_awaiting_full c)) [
  | inl f ↦ (too_many_awaiting_rel, ground arith)
  | inr f ↦ (packet_identifier_in_use, ground arith)
]

register-new :
    (now i : ℕ) (c : Client)
    → (register_publish_packet_id now i c).1 ≡ none
    → lookup ℕ_discrete i (register_publish_packet_id now i c).0.awaiting_rel ≡ some now
unfolding register_publish_packet_id
register-new now i c h = ground (arith, lookup-insert_self ℕ_discrete i now c.awaiting_rel)

-- After `registerPublishPacketId` accepted an identifier, and any steps that neither release the identifier
-- nor reach its timeout, `registerPublishPacketId` of the same identifier returns an error and leaves
-- the state of the client as it is.
pub register-once :
    (now again i : ℕ) (es : List Event) (c : Client)
    → (register_publish_packet_id now i c).1 ≡ none
    → AllQuiet i now es
    → let d = run es (register_publish_packet_id now i c).0 in
      (e : ClientError) × (register_publish_packet_id again i d ≡ (d, some e))
register-once now again i es c h q =
    register-held again i now (run es (register_publish_packet_id now i c).0)
      (run-lookup es i now (register_publish_packet_id now i c).0 q (register-new now i c h))
