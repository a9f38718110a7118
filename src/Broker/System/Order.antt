-- ===== src/Broker/System/Order.antt =====
-- The order of the messages of each client through every run of the goroutines of broker/broker.go,
-- broker/client.go and pool/pool.go.
use thoth.Base.{
  ℤ, ℕ, ◌≡◌, ◌≢◌, refl, sym, subst, ap, ◌∙◌, Bool, true, false, Option, none, some, List, [], ◌∷◌,
  ◌++◌, Bytes, length, set, append-nil, ℕ_discrete,
}
use thoth.Packets.{ControlPacket}
use thoth.Heap.{at_address}
use thoth.Pool.{at_least_one}
use thoth.Broker.{ClientType, Peer, Broker, World}
use thoth.Broker.Valid.{IsBroker}
use thoth.Broker.Process.Reading.{heard}
use thoth.Broker.Connect.{Outcome, handle_connection}
use thoth.Broker.Invariant.{Event}
use thoth.Broker.Invariant.Runs.{run-IsBroker, new_broker-IsBroker}
use thoth.Broker.System.{
  Reader, Worker, System, Action, start, set_reader, new_system, work, leave, connected, advance,
  advance_all,
}
use thoth.Broker.System.Workers.{messages_of, messages_of-append, in_flight, idle-in_flight}
use thoth.Broker.System.Steps.{Follows, IsNext, step-Follows, handle_connection-IsNext}
use thoth.Broker.System.Told.{pending, IsTold, start-IsTold}
use thoth.Broker.System.Tasks.{other_task, own_message, other_message, work-IsTold}
use thoth.Broker.System.Readers.{
  ToldAt, IsSystem, absent, set_reader-all, moves, takes, poll-IsSystem, receive-IsSystem,
  submit-IsSystem, other_worker,
}

module _ (hash : Bytes → ℕ) where
  work-IsSystem :
      (o : Option Worker) (w : World) (i : ℕ) (s : System)
      → at_address i s.workers ≡ o
      → IsSystem hash s
      → IsSystem hash (work o w i s)
  work-IsSystem none w i s h v = v
  work-IsSystem (some Worker.idle) w i s h v = v
  work-IsSystem (some Worker.returned) w i s h v = v
  work-IsSystem (some (Worker.busy c x)) w i s h (v, t) =
      takes hash (Event.message w c x)
        (record s { workers = set s.workers i Worker.idle; processed = s.processed ++ (c, x) ∷ [] })
        (v, told)
    where
      after : System
      after = record s {
        workers = set s.workers i Worker.idle;
        processed = s.processed ++ (c, x) ∷ [];
      }

      own : ToldAt hash after c (s.readers c)
      own =
          subst
            (IsTold hash c (at_address c s.broker.peers) (s.readers c)
              (set s.workers i Worker.idle))
            (sym (
              messages_of-append c s.processed ((c, x) ∷ [])
              ∙ ap (messages_of c s.processed ++◌) (own_message c x)))
            (work-IsTold hash c (at_address c s.broker.peers) (s.readers c) i x s.workers
              (messages_of c s.processed) h (t c))

      other : (a : ℕ) → c ≢ a → ToldAt hash after a (s.readers a)
      other a n =
          subst
            (IsTold hash a (at_address a s.broker.peers) (s.readers a)
              (set s.workers i Worker.idle))
            (sym (
              messages_of-append a s.processed ((c, x) ∷ [])
              ∙ ap (messages_of a s.processed ++◌) (other_message c a x n)
              ∙ append-nil (messages_of a s.processed)))
            (other_worker hash i (Worker.busy c x) Worker.idle a s h (other_task c a x n) (t a))

      told : (a : ℕ) → ToldAt hash after a (s.readers a)
      told a = elim (ℕ_discrete c a) [
        | yes e ↦ subst (λ y. ToldAt hash after y (s.readers y)) e own
        | no n ↦ other a n
      ]

  leave-IsSystem :
      (o : Option Worker) (stopped : Bool) (i : ℕ) (s : System)
      → at_address i s.workers ≡ o
      → IsSystem hash s
      → IsSystem hash (leave o stopped i s)
  leave-IsSystem (some Worker.idle) true i s h (v, t) =
      (v, λ a. other_worker hash i Worker.idle Worker.returned a s h refl (t a))
  leave-IsSystem (some Worker.idle) false i s h v = v
  leave-IsSystem (some Worker.returned) stopped i s h v = v
  leave-IsSystem (some (Worker.busy c x)) stopped i s h v = v
  leave-IsSystem none stopped i s h v = v

  newcomer :
      (o : Option Peer) (r : Reader) (stream : List (Option ControlPacket)) (c : ℕ) (s : System)
      → o ≡ none
      → IsTold hash c o r s.workers (messages_of c s.processed)
      → IsTold hash c none (start stream) s.workers (messages_of c s.processed)
  newcomer none r stream c s e (rest, k, a, (n, l)) =
      start-IsTold hash c stream s.workers (messages_of c s.processed) n l
  newcomer (some p) r stream c s e t = cc

  connected-IsSystem :
      (b : Broker) (o : Outcome) (stream : List (Option ControlPacket)) (s : System)
      → IsNext (length s.broker.peers) o
      → IsBroker b
      → ((c : ℕ) → Follows (at_address c s.broker.peers) (at_address c b.peers))
      → IsSystem hash s
      → IsSystem hash (connected (b, o) stream s)
  connected-IsSystem b (Outcome.accepted ack c) stream s n w f (v, t) =
      let e = absent s.broker.peers c n in
      moves hash b (record s { readers = set_reader c (start stream) s.readers }) w f
        (
          v,
          set_reader-all (ToldAt hash s) c (start stream) s.readers
              (subst (λ o. IsTold hash c o (start stream) s.workers (messages_of c s.processed))
                (sym e) (newcomer (at_address c s.broker.peers) (s.readers c) stream c s e (t c)))
              (λ a d. t a),
        )
  connected-IsSystem b Outcome.exited stream s n w f v = moves hash b s w f v
  connected-IsSystem b Outcome.rejected stream s n w f v = moves hash b s w f v
  connected-IsSystem b (Outcome.refused ack) stream s n w f v = moves hash b s w f v

  advance-IsSystem : (a : Action) (s : System) → IsSystem hash s → IsSystem hash (advance hash a s)
  advance-IsSystem (Action.connects w x typ stream) s (v, t) =
      let e = Event.connection w x typ in
      let (b, o) = handle_connection w x typ s.broker in
      connected-IsSystem (handle_connection w x typ s.broker).0
        (handle_connection w x typ s.broker).1 stream s (handle_connection-IsNext w x typ s.broker)
        (run-IsBroker (e ∷ []) s.broker v) (λ c. step-Follows e c s.broker v) (v, t)
  advance-IsSystem (Action.polls c) s v = poll-IsSystem hash c s v
  advance-IsSystem (Action.receives c) s v =
      receive-IsSystem hash (s.readers c).phase (s.readers c).unread c s refl refl v
  advance-IsSystem (Action.submits c) s v = submit-IsSystem hash (s.readers c).phase c s refl v
  advance-IsSystem (Action.works w i) s v = work-IsSystem (at_address i s.workers) w i s refl v
  advance-IsSystem (Action.leaves i) s v =
      leave-IsSystem (at_address i s.workers) s.stopped i s refl v
  advance-IsSystem Action.stops s v = v
  advance-IsSystem (Action.retries w c) s v = takes hash (Event.retries w c) s v
  advance-IsSystem (Action.expires w c) s v = takes hash (Event.expires w c) s v

  advance_all-IsSystem :
      (actions : List Action) (s : System)
      → IsSystem hash s
      → IsSystem hash (advance_all hash actions s)
  advance_all-IsSystem [] s v = v
  advance_all-IsSystem (a ∷ rest) s v =
      advance_all-IsSystem rest (advance hash a s) (advance-IsSystem a s v)

  new_system-IsSystem : (max_workers : ℤ) → IsSystem hash (new_system max_workers)
  new_system-IsSystem max_workers = (
    new_broker-IsBroker,
    λ c. (
      [],
      ap (◌++ []) (idle-in_flight c (at_least_one max_workers)),
      tt,
      (refl, idle-in_flight c (at_least_one max_workers)),
    ),
  )

-- A new broker after these steps of its goroutines.
abbrev pub reached : (Bytes → ℕ) → ℤ → List Action → System
reached hash max_workers actions = advance_all hash actions (new_system max_workers)

-- In every run of the goroutines of a new broker, with workers as many as there may be, and with any
-- interleaving of reads, submissions, tasks, connections and timers: the messages of a client that were
-- processed, followed by the one that a worker holds, by the one that is being submitted and by a rest,
-- are the packets that its connection says up to the first DISCONNECT or error, in their order. So no
-- message is processed twice, and none before an earlier one of its connection.
pub advance_all-heard :
    (hash : Bytes → ℕ) (max_workers : ℤ) (actions : List Action) (c : ℕ)
    → let s = reached hash max_workers actions in
      (rest : List ControlPacket) × (messages_of c s.processed
          ++ (in_flight c s.workers ++ (pending (s.readers c).phase ++ rest))
        ≡ heard (s.readers c).stream)
advance_all-heard hash max_workers actions c =
    let (v, t) =
      advance_all-IsSystem hash actions (new_system max_workers)
        (new_system-IsSystem hash max_workers) in
    let (rest, k, a, n) = t c in (rest, k)

-- In every run of the goroutines of a new broker, no message of a client of the type CLUSTER is ever
-- processed or held by a worker.
pub advance_all-cluster :
    (hash : Bytes → ℕ) (max_workers : ℤ) (actions : List Action) (c : ℕ) (p : Peer)
    → at_address c (reached hash max_workers actions).broker.peers ≡ some p
    → p.typ ≡ ClientType.cluster
    → (messages_of c (reached hash max_workers actions).processed ≡ [])
      × (in_flight c (reached hash max_workers actions).workers ≡ [])
advance_all-cluster hash max_workers actions c p h t =
    let s = reached hash max_workers actions in
    let (v, told) =
      advance_all-IsSystem hash actions (new_system max_workers)
        (new_system-IsSystem hash max_workers) in
    let (rest, k, a, (o, n)) =
      subst (λ o. IsTold hash c o (s.readers c) s.workers (messages_of c s.processed)) h (told c) in
    n t
