-- ===== src/Broker/System/Turns.antt =====
-- The steps of one reader: `readLoop` of broker/client.go and `SubmitWork` of broker/broker.go.
use thoth.Base.{
  ℕ, ◌%◌, ◌≡◌, ◌≢◌, refl, sym, subst, ap, ap₂, ◌∙◌, arith, Bool, true, false, Option, none, some,
  List, [], ◌∷◌, Bytes, length, set,
}
use thoth.Packets.{ControlPacket}
use thoth.Heap.{at_address}
use thoth.Broker.{ClientType, Peer, Broker, with_peer}
use thoth.Broker.Process.{read_packet}
use thoth.Broker.System.{
  Phase, Reader, Worker, System, Action, set_reader, is_done, select, poll, read_at, receive,
  after_submit, hand_over, submit_typed, submit_work, submit, advance,
}

-- What the reader submits for what `ReadPacket` comes to.
abbrev pub said : Option ControlPacket → ControlPacket
said none = ControlPacket.disconnect
said (some packet) = packet

-- An error ends the loop.
abbrev pub goes_on : Option ControlPacket → Bool
goes_on none = false
goes_on (some packet) = true

-- What the worker has still to process.
abbrev pub task_of : Worker → List (ℕ × ControlPacket)
task_of Worker.idle = []
task_of Worker.returned = []
task_of (Worker.busy c x) = (c, x) ∷ []

-- The reader at an address, the broker, the workers and what was processed.
abbrev pub IsAt :
    ℕ
    → Phase
    → List (Option ControlPacket)
    → Broker
    → List Worker
    → List (ℕ × ControlPacket)
    → System
    → Type 0
IsAt c phase unread b ws done s =
    ((s.readers c).phase ≡ phase)
    × ((s.readers c).unread ≡ unread)
    × (s.broker ≡ b)
    × (s.workers ≡ ws)
    × (s.processed ≡ done)

own_reader : (c : ℕ) (r : Reader) (readers : ℕ → Reader) → set_reader c r readers c ≡ r
own_reader c r readers = ground arith

read_packet-said : (x : Option ControlPacket) (p : Peer) → (read_packet x p).1 ≡ said x ∷ []
read_packet-said none p = refl
read_packet-said (some ControlPacket.disconnect) p = refl
read_packet-said (some other) p = refl

read_packet-goes_on : (x : Option ControlPacket) (p : Peer) → (read_packet x p).2 ≡ goes_on x
read_packet-goes_on none p = refl
read_packet-goes_on (some ControlPacket.disconnect) p = refl
read_packet-goes_on (some other) p = refl

pub read-typ :
    (x : Option ControlPacket) (p : Peer)
    → ((read_packet x p).0.typ ≡ p.typ) × ((read_packet x p).0.info.client_id ≡ p.info.client_id)
read-typ none p = (refl, refl)
read-typ (some ControlPacket.disconnect) p = (refl, refl)
read-typ (some other) p = (refl, refl)

submit_typed-hands_over :
    (hash : Bytes → ℕ) (typ : ClientType) (client_id : Bytes) (c : ℕ) (x : ControlPacket)
    (phase : Phase) (s : System)
    → typ ≢ ClientType.cluster
    → submit_typed hash typ client_id c x phase s
      ≡ hand_over
          (at_address (hash client_id % length s.workers) s.workers)
          (hash client_id % length s.workers)
          c
          x
          phase
          s
submit_typed-hands_over hash ClientType.cluster client_id c x phase s n = absurd (n refl)
submit_typed-hands_over hash ClientType.end_user client_id c x phase s n = refl
submit_typed-hands_over hash ClientType.router client_id c x phase s n = refl
submit_typed-hands_over hash ClientType.remote client_id c x phase s n = refl

module _ (hash : Bytes → ℕ) (c : ℕ) (ws : List Worker) (done : List (ℕ × ControlPacket))
    (b : Broker) (p : Peer) (known : at_address c b.peers ≡ some p) where
  pub polled :
      (unread : List (Option ControlPacket)) (s : System)
      → p.state.cancelled ≡ false
      → IsAt c Phase.polling unread b ws done s
      → IsAt c Phase.reading unread b ws done (poll c s)
  polled unread s live (f, u, h, k, d) =
      let r = record (s.readers c) {
        phase = select (is_done (at_address c s.broker.peers)) (s.readers c).phase;
      } in
      (
        ap (λ y. y.phase) (own_reader c r s.readers)
            ∙ ap₂ (λ o y. select (is_done o) y) (ap (λ y. at_address c y.peers) h ∙ known) f
            ∙ ap (λ y. select y Phase.polling) live,
        ap (λ y. y.unread) (own_reader c r s.readers) ∙ u,
        h,
        k,
        d,
      )

  pub received :
      (x : Option ControlPacket) (xs : List (Option ControlPacket)) (s : System)
      → IsAt c Phase.reading (x ∷ xs) b ws done s
      → IsAt c
          (Phase.submitting (said x ∷ []) (goes_on x))
          xs
          (with_peer c (λ q. (read_packet x q).0) b)
          ws
          done
          (advance hash (Action.receives c) s)
  received x xs s (f, u, h, k, d) =
      subst (λ y. IsAt c next xs b' ws done (receive y (s.readers c).unread c s)) (sym f)
        (subst (λ y. IsAt c next xs b' ws done (receive Phase.reading y c s)) (sym u)
          (subst (λ y. IsAt c next xs b' ws done (read_at y x xs c s))
            (sym (ap (λ y. at_address c y.peers) h ∙ known))
            (
              ap (λ y. y.phase) (own_reader c r s.readers)
                  ∙ ap₂ Phase.submitting (read_packet-said x p) (read_packet-goes_on x p),
              ap (λ y. y.unread) (own_reader c r s.readers),
              ap (with_peer c (λ q. (read_packet x q).0)) h,
              k,
              d,
            )))
    where
      next : Phase
      next = Phase.submitting (said x ∷ []) (goes_on x)

      b' : Broker
      b' = with_peer c (λ q. (read_packet x q).0) b

      r : Reader
      r = record (s.readers c) {
        unread = xs;
        phase = Phase.submitting (read_packet x p).1 (read_packet x p).2;
      }

  pub submitted :
      (x : ControlPacket) (go : Bool) (xs : List (Option ControlPacket)) (s : System)
      → p.typ ≢ ClientType.cluster
      → at_address (hash p.info.client_id % length ws) ws ≡ some Worker.idle
      → IsAt c (Phase.submitting (x ∷ []) go) xs b ws done s
      → IsAt c
          (after_submit [] go)
          xs
          b
          (set ws (hash p.info.client_id % length ws) (Worker.busy c x))
          done
          (advance hash (Action.submits c) s)
  submitted x go xs s t free (f, u, h, k, d) =
      subst (λ y. IsAt c (after_submit [] go) xs b ws' done (submit hash y c s)) (sym f)
        (subst
          (λ y.
            IsAt c (after_submit [] go) xs b ws' done
              (submit_work hash y c x (after_submit [] go) s))
          (sym (ap (λ y. at_address c y.peers) h ∙ known))
          (subst (IsAt c (after_submit [] go) xs b ws' done)
            (sym (submit_typed-hands_over hash p.typ p.info.client_id c x (after_submit [] go) s t))
            (subst
              (λ y.
                IsAt c (after_submit [] go) xs b ws' done (
                  hand_over y (hash p.info.client_id % length s.workers) c x (after_submit [] go)
                    s))
              (sym (ap (λ y. at_address (hash p.info.client_id % length y) y) k ∙ free))
              (
                ap (λ y. y.phase) (own_reader c r s.readers),
                ap (λ y. y.unread) (own_reader c r s.readers) ∙ u,
                h,
                ap (λ y. set y (hash p.info.client_id % length y) (Worker.busy c x)) k,
                d,
              ))))
    where
      ws' : List Worker
      ws' = set ws (hash p.info.client_id % length ws) (Worker.busy c x)

      r : Reader
      r = record (s.readers c) { phase = after_submit [] go }
