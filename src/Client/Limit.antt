-- ===== src/Client/Limit.antt =====
-- The bound on the identifiers of QoS 2 that await a PUBREL: `maxAwaitingRel` of broker/client.go.
use thoth.Base.{
  ℕ, ◌≤◌, ◌≡◌, ◌≢◌, sym, subst, ◌∙◌, arith, inl, inr, Bool, List, [], ◌∷◌, ℕ_discrete, length,
}
use thoth.Packets.{ControlPacket}
use thoth.Assoc.{length-insert_new, length-remove_le}
use thoth.Client.{Client}
use thoth.Client.Inbound.{
  IsBounded, is_awaiting_full, register_publish_packet_id, unexpired, expire_awaiting_rel, pub_rel,
  process_pubrel,
}
use thoth.Client.Once.{Event, published, released, expired, step, run, write_packet-awaiting}

length-unexpired_le : (now : ℕ) (m : List (ℕ × ℕ)) → length (unexpired now m) ≤ length m
unfolding unexpired
length-unexpired_le now [] = omega arith
length-unexpired_le now ((j, u) ∷ m) = ground (arith, length-unexpired_le now m)

register-max :
    (now i : ℕ) (c : Client)
    → (register_publish_packet_id now i c).0.max_awaiting_rel ≡ c.max_awaiting_rel
unfolding register_publish_packet_id
register-max now i c = ground arith

register-length :
    (now i : ℕ) (c : Client)
    → c.max_awaiting_rel ≢ 0
    → length c.awaiting_rel ≤ c.max_awaiting_rel
    → length (register_publish_packet_id now i c).0.awaiting_rel ≤ c.max_awaiting_rel
unfolding register_publish_packet_id is_awaiting_full
register-length now i c z l = ground (arith, length-insert_new ℕ_discrete i now c.awaiting_rel)

-- What keeps the limit, and the number within the limit.
step-bound :
    (c d : Client)
    → d.max_awaiting_rel ≡ c.max_awaiting_rel
    → (c.max_awaiting_rel ≢ 0
        → length c.awaiting_rel ≤ c.max_awaiting_rel
        → length d.awaiting_rel ≤ c.max_awaiting_rel)
    → IsBounded c
    → IsBounded d
step-bound c d m l (inl z) = inl (m ∙ z)
step-bound c d m l (inr b) = elim (ℕ_discrete c.max_awaiting_rel 0) [
  | yes z ↦ inl (m ∙ z)
  | no z ↦ inr (subst (λ n. length d.awaiting_rel ≤ n) (sym m) (l z b))
]

pub_rel-length :
    (i : ℕ) (c : Client)
    → (length (pub_rel i c).0.awaiting_rel ≤ length c.awaiting_rel)
      × ((pub_rel i c).0.max_awaiting_rel ≡ c.max_awaiting_rel)
unfolding pub_rel
pub_rel-length i c = ground (arith, length-remove_le ℕ_discrete i c.awaiting_rel)

released-length :
    (writes : ControlPacket → Bool) (i : ℕ) (c : Client)
    → (length (process_pubrel writes i c).awaiting_rel ≤ length c.awaiting_rel)
      × ((process_pubrel writes i c).max_awaiting_rel ≡ c.max_awaiting_rel)
unfolding process_pubrel
released-length writes i c =
    rw
      (
        process_pubrel,
        (write_packet-awaiting writes (ControlPacket.pubcomp i) (pub_rel i c).0).0,
        (write_packet-awaiting writes (ControlPacket.pubcomp i) (pub_rel i c).0).1,
      )
      (pub_rel-length i c)

expired-length :
    (now : ℕ) (c : Client)
    → (length (expire_awaiting_rel now c).awaiting_rel ≤ length c.awaiting_rel)
      × ((expire_awaiting_rel now c).max_awaiting_rel ≡ c.max_awaiting_rel)
expired-length now c = ground (arith, length-unexpired_le now c.awaiting_rel)

step-IsBounded : (e : Event) (c : Client) → IsBounded c → IsBounded (step e c)
step-IsBounded (published now i) c =
    step-bound c (register_publish_packet_id now i c).0 (register-max now i c)
      (register-length now i c)
step-IsBounded (released writes i) c =
    step-bound c (process_pubrel writes i c) (released-length writes i c).1
      (λ z l. omega (arith, (released-length writes i c).0))
step-IsBounded (expired now) c =
    step-bound c (expire_awaiting_rel now c) (expired-length now c).1
      (λ z l. omega (arith, (expired-length now c).0))

-- However PUBLISH and PUBREL packets of QoS 2 and timeouts follow each other, the identifiers that
-- await a PUBREL stay at most as many as the client allows (0 allows any number).
pub run-IsBounded : (es : List Event) (c : Client) → IsBounded c → IsBounded (run es c)
run-IsBounded [] c h = h
run-IsBounded (e ∷ es) c h = run-IsBounded es (step e c) (step-IsBounded e c h)
