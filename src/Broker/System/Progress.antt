-- ===== src/Broker/System/Progress.antt =====
-- From the connection to `ProcessMessage`: `readLoop` of broker/client.go, `SubmitWork` of broker/broker.go
-- and the worker of pool/pool.go, one step each.
use thoth.Base.{
  ℕ, ◌%◌, ◌≡◌, ◌≢◌, refl, sym, subst, ap, ap₂, ◌∙◌, false, Option, none, some, List, [], ◌∷◌, ◌++◌,
  append-nil, Bytes, length, length-set, set,
}
use thoth.Packets.{ControlPacket}
use thoth.Heap.{at_address, at_address-modify_self}
use thoth.Broker.{ClientType, Peer, Broker, World, with_peer}
use thoth.Broker.Valid.{IsBroker}
use thoth.Broker.Process.{read_packet, process_message}
use thoth.Broker.Invariant.{Event, or_same, step}
use thoth.Broker.System.{Phase, Worker, System, Action, after_submit, work, advance, advance_all}
use thoth.Broker.System.Workers.{at_address-set}
use thoth.Broker.System.Steps.{IsStill, Follows, step-Follows, read-IsBroker}
use thoth.Broker.System.Turns.{said, goes_on, task_of, IsAt, read-typ, polled, received, submitted}

followed :
    (p : Peer) (o : Option Peer) → Follows (some p) o → (q : Peer) × (o ≡ some q) × IsStill p q
followed p none f = absurd f
followed p (some q) f = (q, refl, f)

-- The worker at an index is free, what it had is processed, and the client and its reader are there.
abbrev IsFreed :
    ℕ
    → ℕ
    → Phase
    → List (Option ControlPacket)
    → Peer
    → ℕ
    → List (ℕ × ControlPacket)
    → System
    → Type 0
IsFreed c i phase unread p n done s =
    ((s.readers c).phase ≡ phase)
    × ((s.readers c).unread ≡ unread)
    × (s.processed ≡ done)
    × (length s.workers ≡ n)
    × (at_address i s.workers ≡ some Worker.idle)
    × ((q : Peer) × (at_address c s.broker.peers ≡ some q) × IsStill p q)

freed :
    (c i : ℕ) (phase : Phase) (unread : List (Option ControlPacket)) (b : Broker) (p : Peer)
    (ws : List Worker) (done : List (ℕ × ControlPacket)) (w : World) (u : Worker) (s : System)
    → at_address c b.peers ≡ some p
    → IsBroker b
    → at_address i ws ≡ some u
    → u ≢ Worker.returned
    → IsAt c phase unread b ws done s
    → IsFreed c i phase unread p (length ws) (done ++ task_of u) (work (some u) w i s)
freed c i phase unread b p ws done w Worker.returned s known v h n k = absurd (n refl)
freed c i phase unread b p ws done w Worker.idle s known v h n (f, u, e, k, d) = (
  f,
  u,
  d ∙ sym (append-nil done),
  ap length k,
  ap (at_address i) k ∙ h,
  followed p (at_address c s.broker.peers) (
      subst (Follows (some p)) (sym (ap (λ y. at_address c y.peers) e ∙ known))
        (refl, refl, λ g. g)),
)
freed c i phase unread b p ws done w (Worker.busy a y) s known v h n (f, u, e, k, d) = (
  f,
  u,
  ap (◌++ (a, y) ∷ []) d,
  length-set s.workers i Worker.idle ∙ ap length k,
  at_address-set i s.workers (Worker.busy a y) Worker.idle (ap (at_address i) k ∙ h),
  followed p (at_address c (step (Event.message w a y) s.broker).peers) (
      subst (λ o. Follows o (at_address c (step (Event.message w a y) s.broker).peers))
        (ap (λ z. at_address c z.peers) e ∙ known)
        (step-Follows (Event.message w a y) c s.broker (subst IsBroker (sym e) v))),
)

abbrev ran : World → ℕ → ℕ → ControlPacket → System → System
ran w i c x s = record s {
  broker = step (Event.message w c x) s.broker;
  workers = set s.workers i Worker.idle;
  processed = s.processed ++ (c, x) ∷ [];
}

worked :
    (w : World) (i c : ℕ) (x : ControlPacket) (ws : List Worker) (s : System)
    → at_address i ws ≡ some (Worker.busy c x)
    → s.workers ≡ ws
    → work (at_address i s.workers) w i s ≡ ran w i c x s
worked w i c x ws s h k = ap (λ y. work y w i s) (ap (at_address i) k ∙ h)

-- The steps before the submission, and all of them.
abbrev pub to_submission : ℕ → ℕ → World → List Action
to_submission c i w = Action.polls c ∷ Action.receives c ∷ Action.works w i ∷ []

abbrev pub to_processing : ℕ → ℕ → World → World → List Action
to_processing c i w w' =
    Action.polls c
    ∷ Action.receives c
    ∷ Action.works w i
    ∷ Action.submits c
    ∷ Action.works w' i
    ∷ []

-- With the steps before the submission the broker is b; now it is what `ProcessMessage` makes of it, and
-- what was processed has grown by the message. The worker is idle again, and the reader is back before its `select`, or at
-- its end after an error.
abbrev pub IsProcessed :
    World
    → ℕ
    → ℕ
    → Option ControlPacket
    → List (Option ControlPacket)
    → List (ℕ × ControlPacket)
    → Broker
    → System
    → Type 0
IsProcessed w c i x xs done b s =
    (s.broker ≡ or_same b (process_message w c (said x) b))
    × (s.processed ≡ done ++ (c, said x) ∷ [])
    × (at_address i s.workers ≡ some Worker.idle)
    × ((s.readers c).phase ≡ after_submit [] (goes_on x))
    × ((s.readers c).unread ≡ xs)

finished :
    (hash : Bytes → ℕ) (w : World) (c i : ℕ) (p : Peer) (x : Option ControlPacket)
    (xs : List (Option ControlPacket)) (done : List (ℕ × ControlPacket)) (n : ℕ) (s : System)
    → p.typ ≢ ClientType.cluster
    → i ≡ hash p.info.client_id % n
    → IsFreed c i (Phase.submitting (said x ∷ []) (goes_on x)) xs p n done s
    → IsProcessed w c i x xs done s.broker
        (advance_all hash (Action.submits c ∷ Action.works w i ∷ []) s)
finished hash w c i p x xs done n s t e (f, u, d, k, free, (q, h, (t', i', g))) =
    let same : hash q.info.client_id % length s.workers ≡ i =
      ap₂ (λ a b. hash a % b) i' k ∙ sym e in
    let s1 = advance hash (Action.submits c) s in
    let (f1, u1, h1, k1, d1) =
      submitted hash c s.workers s.processed s.broker q h (said x) (goes_on x) xs s
        (λ z. t (sym t' ∙ z))
        (subst (λ j. at_address j s.workers ≡ some Worker.idle) (sym same) free)
        (f, u, refl, refl, refl) in
    let k2 = k1 ∙ ap (λ j. set s.workers j (Worker.busy c (said x))) same in
    let busy = at_address-set i s.workers Worker.idle (Worker.busy c (said x)) free in
    subst (IsProcessed w c i x xs done s.broker)
      (sym (worked w i c (said x) (set s.workers i (Worker.busy c (said x))) s1 busy k2))
      (
        ap (λ b. or_same b (process_message w c (said x) b)) h1,
        ap (◌++ (c, said x) ∷ []) (d1 ∙ d),
        at_address-set i s1.workers (Worker.busy c (said x)) Worker.idle
            (ap (at_address i) k2 ∙ busy),
        f1,
        u1,
      )

-- In a broker with valid pointers, where the context of a client that is not of the type CLUSTER is not
-- cancelled, its reader is before its `select`, a read has come to something, and its worker, idle or with any
-- task, has not returned: once the reader has done its `select` and its read, the worker the task that it had, the
-- reader its submission, and the worker this task, the worker has called `ProcessMessage` on what was read (a
-- DISCONNECT in place of an error), in the broker as it was then, after the task that it had. It is idle again then, and the
-- reader goes on, but after an error. A handler is one step here, also where it waits for the channel of the bridge.
pub advance_all-processes :
    (hash : Bytes → ℕ) (w w' : World) (c : ℕ) (p : Peer) (x : Option ControlPacket)
    (xs : List (Option ControlPacket)) (u : Worker) (s : System)
    → IsBroker s.broker
    → at_address c s.broker.peers ≡ some p
    → p.typ ≢ ClientType.cluster
    → p.state.cancelled ≡ false
    → (s.readers c).phase ≡ Phase.polling
    → (s.readers c).unread ≡ x ∷ xs
    → at_address (hash p.info.client_id % length s.workers) s.workers ≡ some u
    → u ≢ Worker.returned
    → let i = hash p.info.client_id % length s.workers in
      IsProcessed w' c i x xs
        (s.processed ++ task_of u)
        (advance_all hash (to_submission c i w) s).broker
        (advance_all hash (to_processing c i w w') s)
advance_all-processes hash w w' c p x xs u s v h t live f un at alive =
    let i = hash p.info.client_id % length s.workers in
    let s1 = advance hash (Action.polls c) s in
    let s2 = advance hash (Action.receives c) s1 in
    let b = with_peer c (λ q. (read_packet x q).0) s.broker in
    let (f2, u2, h2, k2, d2) = received hash c s.workers s.processed s.broker p h x xs s1 (
      polled hash c s.workers s.processed s.broker p h (x ∷ xs) s live (f, un, refl, refl, refl)) in
    finished hash w' c i (read_packet x p).0 x xs (s.processed ++ task_of u) (length s.workers)
      (advance hash (Action.works w i) s2) (λ z. t (sym (read-typ x p).0 ∙ z))
      (sym (ap (λ y. hash y % length s.workers) (read-typ x p).1))
      (subst
        (λ o.
          IsFreed c i (Phase.submitting (said x ∷ []) (goes_on x)) xs (read_packet x p).0
            (length s.workers) (s.processed ++ task_of u) (work o w i s2))
        (sym (ap (at_address i) k2 ∙ at))
        (freed c i (Phase.submitting (said x ∷ []) (goes_on x)) xs b (read_packet x p).0 s.workers
          s.processed w u s2
          (at_address-modify_self c (λ q. (read_packet x q).0) s.broker.peers p h)
          (read-IsBroker x c s.broker v) at alive (f2, u2, h2, k2, d2)))
