-- ===== src/Broker/System/Tasks.antt =====
-- `SubmitWork` of broker/broker.go and the tasks of the workers: what they do to the messages of the client.
use thoth.Base.{
  ℕ, ◌%◌, ◌≡◌, ◌≢◌, refl, sym, subst, ap, ◌∙◌, arith, Bool, true, false, Option, none, some, List,
  [], ◌∷◌, ◌++◌, Bytes, length, length-set, set, append_assoc,
}
use thoth.Packets.{ControlPacket}
use thoth.Heap.{at_address}
use thoth.Broker.{ClientType, Peer}
use thoth.Broker.System.{Phase, Reader, Worker, after_submit}
use thoth.Broker.System.Workers.{
  messages_of, held, in_flight, OnlyAt, nothing-OnlyAt, in_flight-OnlyAt, set-OnlyAt,
  at_address-set, held-OnlyAt,
}
use thoth.Broker.System.Told.{pending, Ahead, IsTold}

own_task : (c : ℕ) (x : ControlPacket) → held c (Worker.busy c x) ≡ x ∷ []
own_task c x = ground arith

pub other_task : (c a : ℕ) (x : ControlPacket) → c ≢ a → held a (Worker.busy c x) ≡ []
other_task c a x n = ground arith

pub own_message : (c : ℕ) (x : ControlPacket) → messages_of c ((c, x) ∷ []) ≡ x ∷ []
own_message c x = ground arith

pub other_message : (c a : ℕ) (x : ControlPacket) → c ≢ a → messages_of a ((c, x) ∷ []) ≡ []
other_message c a x n = ground arith

nothing : (x : ControlPacket) → x ∷ [] ≡ [] → ⊥
nothing x e = cc

after_at :
    (xs : List ControlPacket) (go : Bool) (x : ControlPacket) (d : Bool)
    (unread : List (Option ControlPacket)) (rest : List ControlPacket)
    → Ahead (Phase.submitting (x ∷ xs) go) d unread rest
    → (pending (after_submit xs go) ≡ xs) × Ahead (after_submit xs go) d unread rest
after_at [] true x d unread rest a = (refl, a)
after_at [] false x d unread rest a = (refl, tt)
after_at (y ∷ xs) true x d unread rest a = (refl, a)
after_at (y ∷ xs) false x d unread rest a = (refl, tt)

module _ (hash : Bytes → ℕ) (c : ℕ) where
  -- A submission reaches the client's worker, where that is idle.
  pub submit-IsTold :
      (p : Peer) (r : Reader) (x : ControlPacket) (xs : List ControlPacket) (go : Bool)
      (ws : List Worker) (ms : List ControlPacket)
      → r.phase ≡ Phase.submitting (x ∷ xs) go
      → p.typ ≢ ClientType.cluster
      → at_address (hash p.info.client_id % length ws) ws ≡ some Worker.idle
      → IsTold hash c (some p) r ws ms
      → IsTold hash c
          (some p)
          (record r { phase = after_submit xs go })
          (set ws (hash p.info.client_id % length ws) (Worker.busy c x))
          ms
  submit-IsTold p r x xs go ws ms f t free (rest, k, a, (o, n)) =
      let i = hash p.info.client_id % length ws in
      let ws' = set ws i (Worker.busy c x) in
      let (e, a') =
        after_at xs go x p.state.cancelled r.unread rest
          (subst (λ y. Ahead y p.state.cancelled r.unread rest) f a) in
      let o' = set-OnlyAt c i ws (Worker.busy c x) o in
      (
        rest,
        ap (λ y. ms ++ (y ++ (pending (after_submit xs go) ++ rest)))
              (in_flight-OnlyAt c i ws' (Worker.busy c x) o'
                  (at_address-set i ws Worker.idle (Worker.busy c x) free)
                ∙ own_task c x)
            ∙ ap (λ y. ms ++ (x ∷ (y ++ rest))) e
            ∙ sym (
                ap (λ y. ms ++ (y ++ (x ∷ (xs ++ rest))))
                  (in_flight-OnlyAt c i ws Worker.idle o free))
            ∙ sym (ap (λ y. ms ++ (in_flight c ws ++ (pending y ++ rest))) f)
            ∙ k,
        a',
        (rw (length-set ws i (Worker.busy c x)) o', λ e. absurd (t e)),
      )

  -- A worker that has run the message of the client.
  pub work-IsTold :
      (q : Option Peer) (r : Reader) (i : ℕ) (x : ControlPacket) (ws : List Worker)
      (ms : List ControlPacket)
      → at_address i ws ≡ some (Worker.busy c x)
      → IsTold hash c q r ws ms
      → IsTold hash c q r (set ws i Worker.idle) (ms ++ x ∷ [])
  work-IsTold none r i x ws ms h (rest, k, a, (n, l)) = absurd (
      nothing x (
        sym (own_task c x)
        ∙ sym (in_flight-OnlyAt c i ws (Worker.busy c x) (nothing-OnlyAt c i ws l) h)
        ∙ l))
  work-IsTold (some p) r i x ws ms h (rest, k, a, (o, n)) =
      let j = hash p.info.client_id % length ws in
      let e =
        held-OnlyAt c j i ws (Worker.busy c x) o h (λ e. nothing x (sym (own_task c x) ∙ e)) in
      let here = subst (λ y. OnlyAt c y ws) (sym e) o in
      let flying = in_flight-OnlyAt c i ws (Worker.busy c x) here h ∙ own_task c x in
      let there = set-OnlyAt c i ws Worker.idle here in
      let empty =
        in_flight-OnlyAt c i (set ws i Worker.idle) Worker.idle there
          (at_address-set i ws (Worker.busy c x) Worker.idle h) in
      (
        rest,
        ap (λ y. ms ++ x ∷ [] ++ (y ++ (pending r.phase ++ rest))) empty
            ∙ append_assoc ms (x ∷ []) (pending r.phase ++ rest)
            ∙ sym (ap (λ y. ms ++ (y ++ (pending r.phase ++ rest))) flying)
            ∙ k,
        a,
        (
          rw (length-set ws i Worker.idle) (subst (λ y. OnlyAt c y (set ws i Worker.idle)) e there),
          λ t. absurd (nothing x (sym flying ∙ (n t).1)),
        ),
      )
