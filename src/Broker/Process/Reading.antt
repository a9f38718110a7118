-- ===== src/Broker/Process/Reading.antt =====
-- What `readLoop` of broker/client.go submits to the workers.
use thoth.Base.{◌≡◌, refl, sym, subst, ap, ◌∙◌, true, false, Option, none, some, List, [], ◌∷◌}
use thoth.Packets.{PublishPacket, ControlPacket}
use thoth.Broker.{Peer}
use thoth.Broker.Process.{read_packet, read_unless, read_round, go_on, read_loop}

-- The packets up to the first DISCONNECT; an error counts as one.
abbrev pub heard : List (Option ControlPacket) → List ControlPacket
heard [] = []
heard (none ∷ xs) = ControlPacket.disconnect ∷ []
heard (some ControlPacket.disconnect ∷ xs) = ControlPacket.disconnect ∷ []
heard (some other ∷ xs) = other ∷ heard xs

-- The will that is left: a DISCONNECT takes it away, an error does not.
abbrev pub will_after : List (Option ControlPacket) → Option PublishPacket → Option PublishPacket
will_after [] will = will
will_after (none ∷ xs) will = will
will_after (some ControlPacket.disconnect ∷ xs) will = none
will_after (some other ∷ xs) will = will_after xs will

-- A cancelled loop ends.
read_loop-cancelled :
    (xs : List (Option ControlPacket)) (p : Peer)
    → p.state.cancelled ≡ true
    → read_loop xs p ≡ (p, [])
unfolding read_loop read_round
read_loop-cancelled [] p h = refl
read_loop-cancelled (x ∷ xs) p h =
    ap (λ c. go_on (read_unless c x p) (read_loop xs (read_unless c x p).0)) h

round-reads :
    (x : Option ControlPacket) (p : Peer)
    → p.state.cancelled ≡ false
    → read_round x p ≡ read_packet x p
unfolding read_round
round-reads x p h = ap (λ c. read_unless c x p) h

loop-reads :
    (x : Option ControlPacket) (xs : List (Option ControlPacket)) (p : Peer)
    → p.state.cancelled ≡ false
    → read_loop (x ∷ xs) p ≡ go_on (read_packet x p) (read_loop xs (read_packet x p).0)
unfolding read_loop
loop-reads x xs p h = ap (λ o. go_on o (read_loop xs o.0)) (round-reads x p h)

abbrev IsHeard : List (Option ControlPacket) → Peer → Peer × List ControlPacket → Type 0
IsHeard xs p o = (o.1 ≡ heard xs) × (o.0.info.will_msg ≡ will_after xs p.info.will_msg)

other-IsHeard :
    (packet : ControlPacket) (xs : List (Option ControlPacket)) (p : Peer)
    (o : Peer × List ControlPacket)
    → IsHeard xs p o
    → (packet ∷ o.1 ≡ packet ∷ heard xs) × (o.0.info.will_msg ≡ will_after xs p.info.will_msg)
other-IsHeard packet xs p o h = (ap (◌∷◌ packet) h.0, h.1)

-- A loop that is not cancelled submits every packet up to the first DISCONNECT, in their order and that one
-- included, and nothing after it; a read error ends it in the same way, with a DISCONNECT submitted
-- in place of the packet. The client loses its will exactly by its own DISCONNECT.
pub read_loop-heard :
    (xs : List (Option ControlPacket)) (p : Peer)
    → p.state.cancelled ≡ false
    → ((read_loop xs p).1 ≡ heard xs)
      × ((read_loop xs p).0.info.will_msg ≡ will_after xs p.info.will_msg)
unfolding read_loop
read_loop-heard [] p h = (refl, refl)
read_loop-heard (none ∷ xs) p h =
    subst (IsHeard (none ∷ xs) p) (sym (loop-reads none xs p h)) (refl, refl)
read_loop-heard (some ControlPacket.disconnect ∷ xs) p h =
    subst (IsHeard (some ControlPacket.disconnect ∷ xs) p)
      (sym (
        loop-reads (some ControlPacket.disconnect) xs p h
        ∙ ap (go_on (read_packet (some ControlPacket.disconnect) p))
            (read_loop-cancelled xs (read_packet (some ControlPacket.disconnect) p).0 refl)))
      (refl, refl)
read_loop-heard (some other ∷ xs) p h =
    subst (IsHeard (some other ∷ xs) p) (sym (loop-reads (some other) xs p h))
      (other-IsHeard other xs p (read_loop xs p) (read_loop-heard xs p h))
