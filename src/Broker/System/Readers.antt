-- ===== src/Broker/System/Readers.antt =====
-- The readers of broker/client.go and `SubmitWork` of broker/broker.go: what their steps do to the messages
-- of every client.
use thoth.Base.{
  ℕ, ◌%◌, ◌≡◌, ◌≢◌, refl, sym, subst, arith, Bool, Option, none, some, List, [], ◌∷◌, Bytes, length,
  set, ℕ_discrete,
}
use thoth.Packets.{ControlPacket}
use thoth.Heap.{at_address, at_address-modify_self}
use thoth.Broker.{ClientType, Peer, Broker, with_peer}
use thoth.Broker.Valid.{IsBroker}
use thoth.Broker.Process.{read_packet}
use thoth.Broker.Invariant.{Event, step}
use thoth.Broker.Invariant.Runs.{run-IsBroker}
use thoth.Broker.System.{
  Phase, Reader, Worker, System, set_reader, poll, read_at, receive, after_submit, hand_over,
  submit_typed, submit_work, submit,
}
use thoth.Broker.System.Workers.{messages_of, held}
use thoth.Broker.System.Steps.{Follows, step-Follows, read-Follows, read-IsStill, read-IsBroker}
use thoth.Broker.System.Told.{IsTold, Follows-IsTold, set_other-IsTold, select-IsTold, read-IsTold}
use thoth.Broker.System.Tasks.{other_task, submit-IsTold}

-- The readers at all addresses but one are the same.
pub set_reader-all :
    (P : ℕ → Reader → Type 0) (c : ℕ) (r : Reader) (readers : ℕ → Reader)
    → P c r
    → ((a : ℕ) → c ≢ a → P a (readers a))
    → (a : ℕ) → P a (set_reader c r readers a)
set_reader-all P c r readers h k a = elim (ℕ_discrete c a) [
  | yes e ↦
      subst (λ x. P x (set_reader c r readers x)) e (subst (P c) (sym (own_reader c r readers)) h)
  | no n ↦ subst (P a) (sym (other_reader c a r readers n)) (k a n)
]
  where
    own_reader : (c : ℕ) (r : Reader) (readers : ℕ → Reader) → set_reader c r readers c ≡ r
    own_reader c r readers = ground arith

    other_reader :
        (c a : ℕ) (r : Reader) (readers : ℕ → Reader) → c ≢ a → set_reader c r readers a ≡ readers a
    other_reader c a r readers n = ground arith

pub absent : (ps : List Peer) (c : ℕ) → c ≡ length ps → at_address c ps ≡ none
absent [] c e = refl
absent (p ∷ ps) c e = rw e (absent ps (length ps) refl)

module _ (hash : Bytes → ℕ) where
  abbrev pub ToldAt : System → ℕ → Reader → Type 0
  ToldAt s c r = IsTold hash c (at_address c s.broker.peers) r s.workers (messages_of c s.processed)

  -- The pointers are valid, and the messages of each client are in order.
  abbrev pub IsSystem : System → Type 0
  IsSystem s = IsBroker s.broker × ((c : ℕ) → ToldAt s c (s.readers c))

  -- The broker changes.
  pub moves :
      (b : Broker) (s : System)
      → IsBroker b
      → ((c : ℕ) → Follows (at_address c s.broker.peers) (at_address c b.peers))
      → IsSystem s
      → IsSystem (record s { broker = b })
  moves b s w f (v, t) = (
    w,
    λ c.
        Follows-IsTold hash c (at_address c s.broker.peers) (at_address c b.peers) (s.readers c)
          s.workers (messages_of c s.processed) (f c) (t c),
  )

  pub takes :
      (e : Event) (s : System) → IsSystem s → IsSystem (record s { broker = step e s.broker })
  takes e s (v, t) =
      moves (step e s.broker) s (run-IsBroker (e ∷ []) s.broker v)
        (λ c. step-Follows e c s.broker v) (v, t)

  -- One reader changes.
  pub reads :
      (c : ℕ) (r : Reader) (s : System)
      → IsBroker s.broker
      → ToldAt s c r
      → ((a : ℕ) → c ≢ a → ToldAt s a (s.readers a))
      → IsSystem (record s { readers = set_reader c r s.readers })
  reads c r s v h t = (v, set_reader-all (ToldAt s) c r s.readers h t)

  pub poll-IsSystem : (c : ℕ) (s : System) → IsSystem s → IsSystem (poll c s)
  poll-IsSystem c s (v, t) =
      reads c _ s v
        (select-IsTold hash c (at_address c s.broker.peers) (s.readers c) s.workers
          (messages_of c s.processed) (t c))
        (λ a n. t a)

  read_at-IsSystem :
      (o : Option Peer) (x : Option ControlPacket) (xs : List (Option ControlPacket)) (c : ℕ)
      (s : System)
      → at_address c s.broker.peers ≡ o
      → (s.readers c).phase ≡ Phase.reading
      → (s.readers c).unread ≡ x ∷ xs
      → IsSystem s
      → IsSystem (read_at o x xs c s)
  read_at-IsSystem none x xs c s h f u v = v
  read_at-IsSystem (some p) x xs c s h f u (v, t) =
      let b = with_peer c (λ q. (read_packet x q).0) s.broker in
      let (w, t') =
        moves b s (read-IsBroker x c s.broker v) (λ a. read-Follows x c a s.broker) (v, t) in
      reads c _ (record s { broker = b }) w
        (subst
          (λ o.
            IsTold hash c o
              (record (s.readers c) {
                unread = xs;
                phase = Phase.submitting (read_packet x p).1 (read_packet x p).2;
              })
              s.workers (messages_of c s.processed))
          (sym (at_address-modify_self c (λ q. (read_packet x q).0) s.broker.peers p h))
          (read-IsTold hash c p (s.readers c) x xs s.workers (messages_of c s.processed) f u
            (read-IsStill x p)
            (subst (λ o. IsTold hash c o (s.readers c) s.workers (messages_of c s.processed)) h
              (t c))))
        (λ a n. t' a)

  pub receive-IsSystem :
      (phase : Phase) (unread : List (Option ControlPacket)) (c : ℕ) (s : System)
      → (s.readers c).phase ≡ phase
      → (s.readers c).unread ≡ unread
      → IsSystem s
      → IsSystem (receive phase unread c s)
  receive-IsSystem Phase.reading (x ∷ xs) c s f u v =
      read_at-IsSystem (at_address c s.broker.peers) x xs c s refl f u v
  receive-IsSystem Phase.reading [] c s f u v = v
  receive-IsSystem Phase.polling unread c s f u v = v
  receive-IsSystem Phase.ended unread c s f u v = v
  receive-IsSystem (Phase.submitting xs go) unread c s f u v = v

  -- A worker changes, but not in the messages that it holds of client a.
  pub other_worker :
      (i : ℕ) (u w : Worker) (a : ℕ) (s : System)
      → at_address i s.workers ≡ some u
      → held a u ≡ held a w
      → ToldAt s a (s.readers a)
      → ToldAt (record s { workers = set s.workers i w }) a (s.readers a)
  other_worker i u w a s h k t =
      set_other-IsTold hash a (at_address a s.broker.peers) (s.readers a) i s.workers u w
        (messages_of a s.processed) h k t

  hand_over-IsSystem :
      (o : Option Worker) (p : Peer) (c : ℕ) (x : ControlPacket) (xs : List ControlPacket)
      (go : Bool) (s : System)
      → at_address (hash p.info.client_id % length s.workers) s.workers ≡ o
      → at_address c s.broker.peers ≡ some p
      → (s.readers c).phase ≡ Phase.submitting (x ∷ xs) go
      → p.typ ≢ ClientType.cluster
      → IsSystem s
      → IsSystem (hand_over o (hash p.info.client_id % length s.workers) c x (after_submit xs go) s)
  hand_over-IsSystem none p c x xs go s free h f n v = v
  hand_over-IsSystem (some Worker.returned) p c x xs go s free h f n v = v
  hand_over-IsSystem (some (Worker.busy a y)) p c x xs go s free h f n v = v
  hand_over-IsSystem (some Worker.idle) p c x xs go s free h f n (v, t) =
      let i = hash p.info.client_id % length s.workers in
      reads c _ (record s { workers = set s.workers i (Worker.busy c x) }) v
        (subst
          (λ o.
            IsTold hash c o (record (s.readers c) { phase = after_submit xs go })
              (set s.workers i (Worker.busy c x)) (messages_of c s.processed))
          (sym h)
          (submit-IsTold hash c p (s.readers c) x xs go s.workers (messages_of c s.processed) f n
            free
            (subst (λ o. IsTold hash c o (s.readers c) s.workers (messages_of c s.processed)) h
              (t c))))
        (λ a d.
          other_worker i Worker.idle (Worker.busy c x) a s free (sym (other_task c a x d)) (t a))

  submit_typed-IsSystem :
      (typ : ClientType) (p : Peer) (c : ℕ) (x : ControlPacket) (xs : List ControlPacket)
      (go : Bool) (s : System)
      → p.typ ≡ typ
      → at_address c s.broker.peers ≡ some p
      → (s.readers c).phase ≡ Phase.submitting (x ∷ xs) go
      → IsSystem s
      → IsSystem (submit_typed hash typ p.info.client_id c x (after_submit xs go) s)
  submit_typed-IsSystem ClientType.cluster p c x xs go s e h f v = v
  submit_typed-IsSystem ClientType.end_user p c x xs go s e h f v =
      hand_over-IsSystem (at_address (hash p.info.client_id % length s.workers) s.workers) p c x xs
        go s refl h f (λ k. cc) v
  submit_typed-IsSystem ClientType.router p c x xs go s e h f v =
      hand_over-IsSystem (at_address (hash p.info.client_id % length s.workers) s.workers) p c x xs
        go s refl h f (λ k. cc) v
  submit_typed-IsSystem ClientType.remote p c x xs go s e h f v =
      hand_over-IsSystem (at_address (hash p.info.client_id % length s.workers) s.workers) p c x xs
        go s refl h f (λ k. cc) v

  submit_work-IsSystem :
      (o : Option Peer) (c : ℕ) (x : ControlPacket) (xs : List ControlPacket) (go : Bool)
      (s : System)
      → at_address c s.broker.peers ≡ o
      → (s.readers c).phase ≡ Phase.submitting (x ∷ xs) go
      → IsSystem s
      → IsSystem (submit_work hash o c x (after_submit xs go) s)
  submit_work-IsSystem none c x xs go s h f v = v
  submit_work-IsSystem (some p) c x xs go s h f v =
      submit_typed-IsSystem p.typ p c x xs go s refl h f v

  pub submit-IsSystem :
      (phase : Phase) (c : ℕ) (s : System)
      → (s.readers c).phase ≡ phase
      → IsSystem s
      → IsSystem (submit hash phase c s)
  submit-IsSystem (Phase.submitting (x ∷ xs) go) c s f v =
      submit_work-IsSystem (at_address c s.broker.peers) c x xs go s refl f v
  submit-IsSystem (Phase.submitting [] go) c s f v = v
  submit-IsSystem Phase.polling c s f v = v
  submit-IsSystem Phase.reading c s f v = v
  submit-IsSystem Phase.ended c s f v = v
