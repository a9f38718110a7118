-- ===== src/Broker/System.antt =====
-- The goroutines around the handlers: `readLoop` of broker/client.go for each client, `SubmitWork` of
-- broker/broker.go, and the workers of pool/pool.go, one for each index. A channel is unbuffered: a send and
-- the receive of an idle worker are one step, and where no worker is idle the sender waits.
-- `fnv1a.HashString64` is a parameter. A panic or an exit of the program is not told apart here: what
-- follows it are steps that the program does not take.
pub mod Workers
pub mod Steps
pub mod Told
pub mod Tasks
pub mod Readers
pub mod Order
pub mod Turns
pub mod Progress
use thoth.Base.{
  ℤ, ℕ, zero, suc, ◌%◌, Bool, true, false, ◌&&◌, Option, none, some, List, [], ◌∷◌, ◌++◌, Bytes,
  length, set, ◌==◌, if◌then◌else◌,
}
use thoth.Packets.{ControlPacket}
use thoth.Heap.{at_address}
use thoth.Pool.{at_least_one}
use thoth.Broker.{ClientType, Peer, Broker, World, new_broker, with_peer}
use thoth.Broker.Process.{read_packet}
use thoth.Broker.Connect.{Visit, Outcome, handle_connection}
use thoth.Broker.Invariant.{Event, step}

-- Where `readLoop` stands: before its `select`, in `ReadPacket`, in `SubmitWork` (with what is to be
-- submitted, and whether the loop goes on after it), or returned.
pub data Phase : Type 0 where
  polling reading ended : Phase
  submitting : List ControlPacket → Bool → Phase

-- What the calls of `ReadPacket` come to, all of them and those that are still to be made.
pub record Reader : Type 0 where
  pub stream : List (Option ControlPacket)
  pub unread : List (Option ControlPacket)
  pub phase : Phase

-- A task is `ProcessMessage` on a message of a client.
pub data Worker : Type 0 where
  idle returned : Worker
  busy : ℕ → ControlPacket → Worker

-- A reader for each address, the workers by their index, whether `Stop` was called, and the messages that
-- `ProcessMessage` was called with, in that order.
pub record System : Type 0 where
  pub broker : Broker
  pub readers : ℕ → Reader
  pub workers : List Worker
  pub stopped : Bool
  pub processed : List (ℕ × ControlPacket)

abbrev pub no_reader : Reader
no_reader = record { stream = []; unread = []; phase = Phase.ended }

abbrev pub start : List (Option ControlPacket) → Reader
start stream = record { stream = stream; unread = stream; phase = Phase.polling }

abbrev pub idle_workers : ℕ → List Worker
idle_workers zero = []
idle_workers (suc n) = Worker.idle ∷ idle_workers n

abbrev pub new_system : ℤ → System
new_system max_workers = record {
  broker = new_broker;
  readers = λ a. no_reader;
  workers = idle_workers (at_least_one max_workers);
  stopped = false;
  processed = [];
}

abbrev pub set_reader : ℕ → Reader → (ℕ → Reader) → ℕ → Reader
set_reader c r readers a = if a == c then r else readers a

-- Whether the context of the client is done.
abbrev pub is_done : Option Peer → Bool
is_done none = false
is_done (some p) = p.state.cancelled

-- `case <-c.ctx.Done()`
abbrev pub select : Bool → Phase → Phase
select done Phase.polling = if done then Phase.ended else Phase.reading
select done phase = phase

abbrev pub poll : ℕ → System → System
poll c s = record s {
  readers =
      set_reader c
        (record (s.readers c) {
          phase = select (is_done (at_address c s.broker.peers)) (s.readers c).phase;
        })
        s.readers;
}

abbrev pub read_at :
    Option Peer → Option ControlPacket → List (Option ControlPacket) → ℕ → System → System
read_at none x xs c s = s
read_at (some p) x xs c s = record s {
  broker = with_peer c (λ q. (read_packet x q).0) s.broker;
  readers =
      set_reader c
        (record (s.readers c) {
          unread = xs;
          phase = Phase.submitting (read_packet x p).1 (read_packet x p).2;
        })
        s.readers;
}

-- `ReadPacket` has come to something.
abbrev pub receive : Phase → List (Option ControlPacket) → ℕ → System → System
receive Phase.reading (x ∷ xs) c s = read_at (at_address c s.broker.peers) x xs c s
receive phase unread c s = s

abbrev pub after_submit : List ControlPacket → Bool → Phase
after_submit [] true = Phase.polling
after_submit [] false = Phase.ended
after_submit (x ∷ xs) go = Phase.submitting (x ∷ xs) go

-- `p.taskQueue[idx] <- task` and `case task = <-taskChan`.
abbrev pub hand_over : Option Worker → ℕ → ℕ → ControlPacket → Phase → System → System
hand_over (some Worker.idle) i c x phase s = record s {
  workers = set s.workers i (Worker.busy c x);
  readers = set_reader c (record (s.readers c) { phase = phase }) s.readers;
}
hand_over worker i c x phase s = s

-- Nothing receives from `clusterPool`: the sender waits.
abbrev pub submit_typed :
    (Bytes → ℕ) → ClientType → Bytes → ℕ → ControlPacket → Phase → System → System
submit_typed hash ClientType.cluster client_id c x phase s = s
submit_typed hash typ client_id c x phase s =
    let i = hash client_id % length s.workers in hand_over (at_address i s.workers) i c x phase s

abbrev pub submit_work : (Bytes → ℕ) → Option Peer → ℕ → ControlPacket → Phase → System → System
submit_work hash none c x phase s = s
submit_work hash (some p) c x phase s = submit_typed hash p.typ p.info.client_id c x phase s

abbrev pub submit : (Bytes → ℕ) → Phase → ℕ → System → System
submit hash (Phase.submitting (x ∷ xs) go) c s =
    submit_work hash (at_address c s.broker.peers) c x (after_submit xs go) s
submit hash phase c s = s

-- `task()`
abbrev pub work : Option Worker → World → ℕ → System → System
work (some (Worker.busy c x)) w i s = record s {
  broker = step (Event.message w c x) s.broker;
  workers = set s.workers i Worker.idle;
  processed = s.processed ++ (c, x) ∷ [];
}
work worker w i s = s

-- `case <-ctx.Done()`
abbrev pub leave : Option Worker → Bool → ℕ → System → System
leave (some Worker.idle) true i s = record s { workers = set s.workers i Worker.returned }
leave worker stopped i s = s

-- `handleConnection` goes on with `readLoop` where the client is accepted.
abbrev pub connected : Broker × Outcome → List (Option ControlPacket) → System → System
connected (b, Outcome.accepted ack c) stream s = record s {
  broker = b;
  readers = set_reader c (start stream) s.readers;
}
connected (b, outcome) stream s = record s { broker = b }

-- A step of one goroutine: a connection, with what it will send; the `select`, the read and the submission
-- of a reader; the task and the end of a worker; `Stop`; the timers of a client.
pub data Action : Type 0 where
  connects : World → Visit → ClientType → List (Option ControlPacket) → Action
  polls receives submits : ℕ → Action
  works : World → ℕ → Action
  leaves : ℕ → Action
  stops : Action
  retries expires : World → ℕ → Action

abbrev pub advance : (Bytes → ℕ) → Action → System → System
advance hash (Action.connects w v typ stream) s =
    connected (handle_connection w v typ s.broker) stream s
advance hash (Action.polls c) s = poll c s
advance hash (Action.receives c) s = receive (s.readers c).phase (s.readers c).unread c s
advance hash (Action.submits c) s = submit hash (s.readers c).phase c s
advance hash (Action.works w i) s = work (at_address i s.workers) w i s
advance hash (Action.leaves i) s = leave (at_address i s.workers) s.stopped i s
advance hash Action.stops s = record s { stopped = true }
advance hash (Action.retries w c) s = record s { broker = step (Event.retries w c) s.broker }
advance hash (Action.expires w c) s = record s { broker = step (Event.expires w c) s.broker }

abbrev pub advance_all : (Bytes → ℕ) → List Action → System → System
advance_all hash [] s = s
advance_all hash (a ∷ rest) s = advance_all hash rest (advance hash a s)
