-- ===== src/Rabbitmq/Accepted.antt =====
-- What the producer of rabbitmq/rabbitmq.go publishes, told from the number of messages that wait alone.
use thoth.Base.{
  ℕ, zero, suc, ◌≡◌, ◌≤◌, refl, sym, subst, ap, ◌∙◌, arith, Bool, true, false, Option, none, some,
  List, [], ◌∷◌, ◌++◌, append-nil, append_assoc, length, length-append, drop, Bytes, ltb,
  if◌then◌else◌,
}
use thoth.Broker.{QueueMessage}
use thoth.Rabbitmq.{
  Stream, new_stream, publish_to_stream, StreamStep, stream_step, stream_steps, or_waits,
  published_if, body_of,
}

-- Of the messages that the handlers send, those that do not find ten others waiting, where n wait before.
abbrev pub accepted : ℕ → List StreamStep → List QueueMessage
accepted n [] = []
accepted n (StreamStep.sends msg ∷ es) =
    let more = msg ∷ accepted (suc n) es in
    let same = accepted n es in if ltb n 10 then more else same
accepted zero (StreamStep.produces publish ∷ es) = accepted 0 es
accepted (suc n) (StreamStep.produces publish ∷ es) = accepted n es

-- Of the rounds of the producer, those that find a message: what becomes of its `Publish`.
abbrev pub rounds : ℕ → List StreamStep → List (Bytes → Bool)
rounds n [] = []
rounds n (StreamStep.sends msg ∷ es) =
    let more = rounds (suc n) es in let same = rounds n es in if ltb n 10 then more else same
rounds zero (StreamStep.produces publish ∷ es) = rounds 0 es
rounds (suc n) (StreamStep.produces publish ∷ es) = publish ∷ rounds n es

-- The JSON text of the i-th message, or nothing, for each i-th round whose `Publish` of it succeeds.
abbrev pub bodies :
    (QueueMessage → Option Bytes) → List (Bytes → Bool) → List QueueMessage → List Bytes
bodies marshal [] ms = []
bodies marshal (publish ∷ ps) [] = []
bodies marshal (publish ∷ ps) (msg ∷ ms) =
    let rest = bodies marshal ps ms in
    elim (marshal msg) [
      | none ↦ if publish [] then [] ∷ rest else rest
      | some json ↦ if publish json then json ∷ rest else rest
    ]

-- The state, where the producer has taken the first of the messages ms, one in each of the rounds ps.
abbrev IsAfter :
    (QueueMessage → Option Bytes)
    → List (Bytes → Bool)
    → List QueueMessage
    → List Bytes
    → Stream
    → Type 0
IsAfter marshal ps ms published after =
    (length after.pchan ≤ 10)
    × (after.pchan ≡ drop (length ps) ms)
    × (after.published ≡ published ++ bodies marshal ps ms)

-- The state after the steps, as the counts tell it.
abbrev Tells : (QueueMessage → Option Bytes) → List StreamStep → ℕ → Stream → Type 0
Tells marshal es n s =
    IsAfter marshal (rounds n es) (s.pchan ++ accepted n es) s.published (stream_steps marshal es s)

bodies-cons :
    (marshal : QueueMessage → Option Bytes) (publish : Bytes → Bool) (ps : List (Bytes → Bool))
    (msg : QueueMessage) (ms : List QueueMessage)
    → bodies marshal (publish ∷ ps) (msg ∷ ms)
      ≡ published_if (publish (body_of (marshal msg))) (body_of (marshal msg))
        ++ bodies marshal ps ms
bodies-cons marshal publish ps msg ms = of_json (marshal msg)
  where
    of_success :
        (y : Bool) (json : Bytes) (rest : List Bytes)
        → (if y then json ∷ rest else rest) ≡ published_if y json ++ rest
    of_success true json rest = refl
    of_success false json rest = refl

    of_json :
        (o : Option Bytes)
        → elim o [
          | none ↦ if publish [] then [] ∷ bodies marshal ps ms else bodies marshal ps ms
          | some json ↦ if publish json then json ∷ bodies marshal ps ms else bodies marshal ps ms
        ]
          ≡ published_if (publish (body_of o)) (body_of o) ++ bodies marshal ps ms
    of_json none = of_success (publish []) [] (bodies marshal ps ms)
    of_json (some json) = of_success (publish json) json (bodies marshal ps ms)

produces-Tells :
    (marshal : QueueMessage → Option Bytes) (publish : Bytes → Bool) (es : List StreamStep)
    → ((n : ℕ) (s : Stream) → length s.pchan ≡ n → n ≤ 10 → Tells marshal es n s)
    → (ms : List QueueMessage) (n : ℕ) (published : List Bytes) → length ms ≡ n
    → n ≤ 10
    → Tells marshal
        (StreamStep.produces publish ∷ es)
        n
        (record { pchan = ms; published = published })
produces-Tells marshal publish es told [] zero published e l =
    told 0 (record { pchan = []; published = published }) refl l
produces-Tells marshal publish es told [] (suc n) published e l = absurd (omega (arith, e))
produces-Tells marshal publish es told (msg ∷ rest) zero published e l = absurd (omega (arith, e))
produces-Tells marshal publish es told (msg ∷ rest) (suc n) published e l =
    let json = body_of (marshal msg) in
    let now = published_if (publish json) json in
    let (b, q, p) =
      told n (record { pchan = rest; published = published ++ now }) (omega (arith, e))
        (omega (arith, l)) in
    let later = bodies marshal (rounds n es) (rest ++ accepted n es) in
    (
      b,
      q,
      p
          ∙ append_assoc published now later
          ∙ ap (published ++◌)
              (sym (bodies-cons marshal publish (rounds n es) msg (rest ++ accepted n es))),
    )

publish_to_stream-eq :
    (y : Bool) (msg : QueueMessage) (s : Stream)
    → ltb (length s.pchan) 10 ≡ y
    → publish_to_stream msg s
      ≡ (if y then some (record s { pchan = s.pchan ++ msg ∷ [] }) else none)
unfolding publish_to_stream
publish_to_stream-eq y msg s e = rw (e, publish_to_stream) refl

sends-Tells :
    (marshal : QueueMessage → Option Bytes) (msg : QueueMessage) (es : List StreamStep)
    → ((n : ℕ) (s : Stream) → length s.pchan ≡ n → n ≤ 10 → Tells marshal es n s)
    → (n : ℕ) (s : Stream) → length s.pchan ≡ n
    → n ≤ 10
    → Tells marshal (StreamStep.sends msg ∷ es) n s
sends-Tells marshal msg es told n s e l = decided (ltb n 10) refl
  where
    decided :
        (y : Bool)
        → ltb n 10 ≡ y
        → IsAfter marshal
            (if y then rounds (suc n) es else rounds n es)
            (s.pchan ++ (if y then msg ∷ accepted (suc n) es else accepted n es))
            s.published
            (stream_steps marshal es (stream_step marshal (StreamStep.sends msg) s))
    decided false f =
        subst
          (λ o.
            IsAfter marshal (rounds n es) (s.pchan ++ accepted n es) s.published
              (stream_steps marshal es (or_waits s o)))
          (sym (publish_to_stream-eq false msg s (ap (λ k. ltb k 10) e ∙ f))) (told n s e l)
    decided true f =
        subst
          (λ o.
            IsAfter marshal (rounds (suc n) es) (s.pchan ++ msg ∷ accepted (suc n) es) s.published
              (stream_steps marshal es (or_waits s o)))
          (sym (publish_to_stream-eq true msg s (ap (λ k. ltb k 10) e ∙ f)))
          (subst
            (λ ms.
              IsAfter marshal (rounds (suc n) es) ms s.published
                (stream_steps marshal es (record s { pchan = s.pchan ++ msg ∷ [] })))
            (append_assoc s.pchan (msg ∷ []) (accepted (suc n) es))
            (told (suc n) (record s { pchan = s.pchan ++ msg ∷ [] })
              (omega (arith, e, length-append s.pchan (msg ∷ []))) (ground arith)))

stream_steps-Tells :
    (marshal : QueueMessage → Option Bytes) (es : List StreamStep) (n : ℕ) (s : Stream)
    → length s.pchan ≡ n
    → n ≤ 10
    → Tells marshal es n s
stream_steps-Tells marshal [] n s e l =
    (subst (◌≤ 10) (sym e) l, sym (append-nil s.pchan), sym (append-nil s.published))
stream_steps-Tells marshal (StreamStep.sends msg ∷ es) n s e l =
    sends-Tells marshal msg es (stream_steps-Tells marshal es) n s e l
stream_steps-Tells marshal (StreamStep.produces publish ∷ es) n s e l =
    produces-Tells marshal publish es (stream_steps-Tells marshal es) s.pchan n s.published e l

-- Let the sends of the handlers and the rounds of the producer interleave in any way, from an empty channel.
-- Accepted are the sends that do not find ten messages waiting. At most ten messages wait; they are
-- the accepted ones, in the order of the sends, after the first k, where k is the number of rounds that found a
-- message. Published are the JSON texts of those first k, in that order and each once, less those
-- whose `Publish` failed; a message that `Marshal` fails on is published empty.
pub stream_steps-accepted :
    (marshal : QueueMessage → Option Bytes) (es : List StreamStep)
    → let s = stream_steps marshal es new_stream in
      (length s.pchan ≤ 10)
      × (s.pchan ≡ drop (length (rounds 0 es)) (accepted 0 es))
      × (s.published ≡ bodies marshal (rounds 0 es) (accepted 0 es))
stream_steps-accepted marshal es = stream_steps-Tells marshal es 0 new_stream refl (omega arith)
