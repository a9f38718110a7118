-- ===== src/Broker/System/Told.antt =====
-- Where the messages of one client of broker/client.go are, between the connection and `ProcessMessage`.
use thoth.Base.{
  ℕ, ◌%◌, ◌≡◌, refl, sym, subst, ap, ◌∙◌, Bool, true, false, Option, none, some, List, [], ◌∷◌,
  ◌++◌, Bytes, length, length-set, set,
}
use thoth.Packets.{ControlPacket}
use thoth.Heap.{at_address}
use thoth.Broker.{ClientType, Peer}
use thoth.Broker.Process.{read_packet}
use thoth.Broker.Process.Reading.{heard}
use thoth.Broker.System.{Phase, Reader, Worker, is_done, select, start}
use thoth.Broker.System.Workers.{
  held, in_flight, OnlyAt, nothing-OnlyAt, in_flight-set_other, set_other-OnlyAt,
}
use thoth.Broker.System.Steps.{IsStill, Follows}

abbrev pub pending : Phase → List ControlPacket
pending Phase.polling = []
pending Phase.reading = []
pending Phase.ended = []
pending (Phase.submitting xs go) = xs

-- What the reader will still submit, unless its context is cancelled first.
abbrev pub Ahead : Phase → Bool → List (Option ControlPacket) → List ControlPacket → Type 0
Ahead Phase.polling done unread rest = done ≡ false → rest ≡ heard unread
Ahead Phase.reading done unread rest = rest ≡ heard unread
Ahead Phase.ended done unread rest = Unit
Ahead (Phase.submitting xs true) done unread rest = done ≡ false → rest ≡ heard unread
Ahead (Phase.submitting xs false) done unread rest = Unit

-- Only the worker of the client holds a message of it; of a CLUSTER client, and where there is no client,
-- nothing was handed over.
abbrev pub Placed : (Bytes → ℕ) → ℕ → Option Peer → List Worker → List ControlPacket → Type 0
Placed hash c none ws ms = (ms ≡ []) × (in_flight c ws ≡ [])
Placed hash c (some p) ws ms =
    OnlyAt c (hash p.info.client_id % length ws) ws
    × (p.typ ≡ ClientType.cluster → (ms ≡ []) × (in_flight c ws ≡ []))

-- The messages that were processed, the one that a worker holds, those that are being submitted and
-- the rest are what the connection says, in this order.
abbrev pub IsTold :
    (Bytes → ℕ) → ℕ → Option Peer → Reader → List Worker → List ControlPacket → Type 0
IsTold hash c o r ws ms =
    (rest : List ControlPacket) × (ms ++ (in_flight c ws ++ (pending r.phase ++ rest))
      ≡ heard r.stream)
    × Ahead r.phase (is_done o) r.unread rest
    × Placed hash c o ws ms

Ahead-le :
    (phase : Phase) (d d' : Bool) (unread : List (Option ControlPacket)) (rest : List ControlPacket)
    → (d' ≡ false → d ≡ false)
    → Ahead phase d unread rest
    → Ahead phase d' unread rest
Ahead-le Phase.polling d d' unread rest k a = λ h. a (k h)
Ahead-le Phase.reading d d' unread rest k a = a
Ahead-le Phase.ended d d' unread rest k a = tt
Ahead-le (Phase.submitting xs true) d d' unread rest k a = λ h. a (k h)
Ahead-le (Phase.submitting xs false) d d' unread rest k a = tt

not_before : (d d' : Bool) → (d ≡ true → d' ≡ true) → d' ≡ false → d ≡ false
not_before true d' k h = sym (k refl) ∙ h
not_before false d' k h = refl

module _ (hash : Bytes → ℕ) (c : ℕ) where
  moved :
      (p q : Peer) (ws : List Worker) (ms : List ControlPacket)
      → IsStill p q
      → Placed hash c (some p) ws ms
      → Placed hash c (some q) ws ms
  moved p q ws ms (t, i, d) (o, n) =
      (subst (λ x. OnlyAt c (hash x % length ws) ws) (sym i) o, λ e. n (sym t ∙ e))

  -- What the broker does to the client keeps the order.
  pub Follows-IsTold :
      (o o' : Option Peer) (r : Reader) (ws : List Worker) (ms : List ControlPacket)
      → Follows o o'
      → IsTold hash c o r ws ms
      → IsTold hash c o' r ws ms
  Follows-IsTold none none r ws ms f h = h
  Follows-IsTold none (some q) r ws ms f (rest, e, a, (n, l)) = (
    rest,
    e,
    Ahead-le r.phase false q.state.cancelled r.unread rest (λ h. refl) a,
    (nothing-OnlyAt c _ ws l, λ t. (n, l)),
  )
  Follows-IsTold (some p) none r ws ms f h = absurd f
  Follows-IsTold (some p) (some q) r ws ms f (rest, e, a, n) = (
    rest,
    e,
    Ahead-le r.phase p.state.cancelled q.state.cancelled r.unread rest
        (not_before p.state.cancelled q.state.cancelled f.2) a,
    moved p q ws ms f n,
  )

  Placed-set_other :
      (o : Option Peer) (j : ℕ) (ws : List Worker) (v w : Worker) (ms : List ControlPacket)
      → at_address j ws ≡ some v
      → held c v ≡ held c w
      → Placed hash c o ws ms
      → Placed hash c o (set ws j w) ms
  Placed-set_other none j ws v w ms e h (n, l) = (n, in_flight-set_other c j ws v w e h ∙ l)
  Placed-set_other (some p) j ws v w ms e h (o, n) = (
    rw (length-set ws j w) (set_other-OnlyAt c (hash p.info.client_id % length ws) j ws v w e h o),
    λ t. ((n t).0, in_flight-set_other c j ws v w e h ∙ (n t).1),
  )

  -- What a worker does to the message of another client keeps the order.
  pub set_other-IsTold :
      (o : Option Peer) (r : Reader) (j : ℕ) (ws : List Worker) (v w : Worker)
      (ms : List ControlPacket)
      → at_address j ws ≡ some v
      → held c v ≡ held c w
      → IsTold hash c o r ws ms
      → IsTold hash c o r (set ws j w) ms
  set_other-IsTold o r j ws v w ms e h (rest, k, a, n) = (
    rest,
    ap (λ x. ms ++ (x ++ (pending r.phase ++ rest))) (in_flight-set_other c j ws v w e h) ∙ k,
    a,
    Placed-set_other o j ws v w ms e h n,
  )

  -- The reader of a client that has just come.
  pub start-IsTold :
      (stream : List (Option ControlPacket)) (ws : List Worker) (ms : List ControlPacket)
      → ms ≡ []
      → in_flight c ws ≡ []
      → IsTold hash c none (start stream) ws ms
  start-IsTold stream ws ms n l = (
    heard stream,
    ap (λ x. x ++ (in_flight c ws ++ heard stream)) n ∙ ap (◌++ heard stream) l,
    λ h. refl,
    (n, l),
  )

  poll_at :
      (o : Option Peer) (phase : Phase) (d : Bool) (unread : List (Option ControlPacket))
      (rest : List ControlPacket)
      → Ahead phase d unread rest
      → (pending (select d phase) ≡ pending phase) × Ahead (select d phase) d unread rest
  poll_at o Phase.polling true unread rest a = (refl, tt)
  poll_at o Phase.polling false unread rest a = (refl, a refl)
  poll_at o Phase.reading d unread rest a = (refl, a)
  poll_at o Phase.ended d unread rest a = (refl, tt)
  poll_at o (Phase.submitting xs go) d unread rest a = (refl, a)

  pub select-IsTold :
      (o : Option Peer) (r : Reader) (ws : List Worker) (ms : List ControlPacket)
      → IsTold hash c o r ws ms
      → IsTold hash c o (record r { phase = select (is_done o) r.phase }) ws ms
  select-IsTold o r ws ms (rest, k, a, n) =
      let (e, a') = poll_at o r.phase (is_done o) r.unread rest a in
      (rest, ap (λ x. ms ++ (in_flight c ws ++ (x ++ rest))) e ∙ k, a', n)

  read_at :
      (x : Option ControlPacket) (xs : List (Option ControlPacket)) (p : Peer)
      → (rest : List ControlPacket) × (heard (x ∷ xs) ≡ (read_packet x p).1 ++ rest)
        × Ahead
            (Phase.submitting (read_packet x p).1 (read_packet x p).2)
            (read_packet x p).0.state.cancelled
            xs
            rest
  read_at none xs p = ([], refl, tt)
  read_at (some ControlPacket.disconnect) xs p = ([], refl, λ h. cc)
  read_at (some other) xs p = (heard xs, refl, λ h. refl)

  -- The reader submits what it has read.
  pub read-IsTold :
      (p : Peer) (r : Reader) (x : Option ControlPacket) (xs : List (Option ControlPacket))
      (ws : List Worker) (ms : List ControlPacket)
      → r.phase ≡ Phase.reading
      → r.unread ≡ x ∷ xs
      → IsStill p (read_packet x p).0
      → IsTold hash c (some p) r ws ms
      → IsTold hash c
          (some (read_packet x p).0)
          (record r {
            unread = xs;
            phase = Phase.submitting (read_packet x p).1 (read_packet x p).2;
          })
          ws
          ms
  read-IsTold p r x xs ws ms f u s (rest, k, a, n) =
      let (rest', e, a') = read_at x xs p in
      (
        rest',
        ap (λ y. ms ++ (in_flight c ws ++ y)) (sym (joined rest a ∙ e))
            ∙ sym (ap (λ y. ms ++ (in_flight c ws ++ (pending y ++ rest))) f)
            ∙ k,
        a',
        moved p (read_packet x p).0 ws ms s n,
      )
    where
      joined :
          (rest : List ControlPacket)
          → Ahead r.phase p.state.cancelled r.unread rest
          → rest ≡ heard (x ∷ xs)
      joined rest a =
          subst (λ y. rest ≡ heard y) u (subst (λ y. Ahead y p.state.cancelled r.unread rest) f a)
