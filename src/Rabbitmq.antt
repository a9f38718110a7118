-- ===== src/Rabbitmq.antt =====
-- `PublishToStream` and the loop of `InitProducer` in rabbitmq/rabbitmq.go, over the channel `pchan` of ten
-- messages. `json.Marshal` and `ch.Publish` of the amqp library are parameters.
pub mod Accepted
use thoth.Base.{
  ℕ, ◌≡◌, ◌≤◌, ◌<◌, refl, sym, subst, ap, ◌∙◌, arith, inl, inr, Bool, true, false, Option, none,
  some, List, [], ◌∷◌, ◌++◌, append-nil, append_assoc, length, length-append, Bytes, ltb,
  if◌then◌else◌, Bool-cases,
}
use thoth.Broker.{QueueMessage}

abbrev pub capacity : ℕ
capacity = 10

-- The messages in the channel, and the bodies that were published.
pub record Stream : Type 0 where
  pub pchan : List QueueMessage
  pub published : List Bytes

abbrev pub new_stream : Stream
new_stream = record { pchan = []; published = [] }

-- A full channel makes the sender wait: none.
unfoldable pub publish_to_stream : QueueMessage → Stream → Option Stream
publish_to_stream msg s =
    if ltb (length s.pchan) capacity then some (record s { pchan = s.pchan ++ msg ∷ [] }) else none

-- An error of `Marshal` leaves the body empty.
abbrev pub body_of : Option Bytes → Bytes
body_of none = []
body_of (some body) = body

abbrev pub published_if : Bool → Bytes → List Bytes
published_if true body = body ∷ []
published_if false body = []

-- The case `msg := <-pchan` on the messages that are there.
abbrev pub produce_from :
    (QueueMessage → Option Bytes) → (Bytes → Bool) → List QueueMessage → Stream → Stream
produce_from marshal publish [] s = s
produce_from marshal publish (msg ∷ rest) s =
    let body = body_of (marshal msg) in
    record { pchan = rest; published = s.published ++ published_if (publish body) body }

-- A round of the producer; an empty channel makes it wait.
abbrev pub produce : (QueueMessage → Option Bytes) → (Bytes → Bool) → Stream → Stream
produce marshal publish s = produce_from marshal publish s.pchan s

pub data StreamStep : Type 0 where
  sends : QueueMessage → StreamStep
  produces : (Bytes → Bool) → StreamStep

abbrev pub or_waits : Stream → Option Stream → Stream
or_waits s none = s
or_waits s (some s') = s'

abbrev pub stream_step : (QueueMessage → Option Bytes) → StreamStep → Stream → Stream
stream_step marshal (StreamStep.sends msg) s = or_waits s (publish_to_stream msg s)
stream_step marshal (StreamStep.produces publish) s = produce marshal publish s

abbrev pub stream_steps : (QueueMessage → Option Bytes) → List StreamStep → Stream → Stream
stream_steps marshal [] s = s
stream_steps marshal (e ∷ es) s = stream_steps marshal es (stream_step marshal e s)
