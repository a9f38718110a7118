-- ===== src/Client/Inbound.antt =====
-- The receiver's side of QoS 2 in broker/client.go: the packet identifiers that await a PUBREL.
use thoth.Base.{
  ℕ, suc, ◌+◌, ◌≤◌, ◌≡◌, ◌⊎◌, Bool, true, false, Option, none, some, List, [], ◌∷◌, ℕ_discrete,
  length, ltb, leb, ◌==◌, if◌then◌else◌,
}
use thoth.Packets.{ControlPacket}
use thoth.Assoc.{lookup, insert, remove}
use thoth.Client.{
  Client, ClientError, too_many_awaiting_rel, packet_identifier_in_use, packet_identifier_not_found,
  await_rel_timeout, write_packet,
}

unfoldable pub is_awaiting_full : Client → Bool
is_awaiting_full c =
    if c.max_awaiting_rel == 0
    then false
    else if ltb (length c.awaiting_rel) c.max_awaiting_rel
    then false
    else true

unfoldable pub register_publish_packet_id : ℕ → ℕ → Client → Client × Option ClientError
register_publish_packet_id now packet_id c =
    if is_awaiting_full c
    then (c, some too_many_awaiting_rel)
    else elim (lookup ℕ_discrete packet_id c.awaiting_rel) [
      | some t ↦ (c, some packet_identifier_in_use)
      | none ↦ (
        record c {
          awaiting_rel = insert ℕ_discrete packet_id now c.awaiting_rel;
          expiries = suc c.expiries;
        },
        none,
      )
    ]

-- The loop of `expireAwaitingRel`: `now-Timestamp >= awaitRelTimeout`.
unfoldable pub unexpired : ℕ → List (ℕ × ℕ) → List (ℕ × ℕ)
unexpired now [] = []
unexpired now ((packet_id, timestamp) ∷ m) =
    if leb (timestamp + await_rel_timeout) now
    then unexpired now m
    else (packet_id, timestamp) ∷ unexpired now m

-- The empty map is left at once, which is what the loop does with it too.
abbrev pub expire_awaiting_rel : ℕ → Client → Client
expire_awaiting_rel now c =
    if length c.awaiting_rel == 0
    then c
    else record c { awaiting_rel = unexpired now c.awaiting_rel }

unfoldable pub pub_rel : ℕ → Client → Client × Option ClientError
pub_rel packet_id c = elim (lookup ℕ_discrete packet_id c.awaiting_rel) [
  | none ↦ (c, some packet_identifier_not_found)
  | some t ↦ (record c { awaiting_rel = remove ℕ_discrete packet_id c.awaiting_rel }, none)
]

-- PUBREL in `ProcessMessage`: the error of `pubRel` is dropped.
unfoldable pub process_pubrel : (ControlPacket → Bool) → ℕ → Client → Client
process_pubrel writes message_id c =
    (write_packet writes (ControlPacket.pubcomp message_id) (pub_rel message_id c).0).0

-- The identifiers that await a PUBREL are at most as many as the client allows; 0 allows any.
abbrev pub IsBounded : Client → Type 0
IsBounded c = (c.max_awaiting_rel ≡ 0) ⊎ (length c.awaiting_rel ≤ c.max_awaiting_rel)
