-- ===== src/Examples/Providers.antt =====
-- Runs of the manager of sessions (broker/persistence/sessions) and of the stream of rabbitmq/rabbitmq.go.
use thoth.Base.{refl, Bytes-discrete, ◌≤◌, length, drop, ◌≡◌, true, none, some, List, [], ◌∷◌}
use thoth.Sessions.Store as Store
use thoth.Sessions.Managed.{Call, manager_calls, last_made, Gets, manager_get-last_made}
use thoth.Broker.{QueueMessage}
use thoth.Rabbitmq.{StreamStep, new_stream, stream_steps}
use thoth.Rabbitmq.Accepted.{accepted, rounds, bodies, stream_steps-accepted}

-- A client without an identifier, next to the client "a", which comes twice.
abbrev calls : List Call
calls =
    Call.news [] (97 ∷ [])
    ∷ Call.news (1 ∷ []) []
    ∷ Call.news [] (97 ∷ [])
    ∷ Call.deletes (1 ∷ [])
    ∷ []

manager_get-last_made_example :
    Gets (97 ∷ []) (last_made (97 ∷ []) calls 0 none) (manager_calls calls Store.new_mem_provider)
manager_get-last_made_example = manager_get-last_made (97 ∷ []) calls

last_a : last_made (97 ∷ []) calls 0 none ≡ some 2
unfolding Bytes-discrete
last_a = refl

last_generated : last_made (1 ∷ []) calls 0 none ≡ none
unfolding Bytes-discrete
last_generated = refl

abbrev queued : QueueMessage
queued = record { client_id = 98 ∷ []; topic = 97 ∷ []; payload = 7 ∷ []; timestamp = 5 }

abbrev steps : List StreamStep
steps = StreamStep.sends queued ∷ StreamStep.produces (λ body. true) ∷ StreamStep.sends queued ∷ []

stream_steps-accepted_example :
    let s = stream_steps (λ m. some m.payload) steps new_stream in
    (length s.pchan ≤ 10)
    × (s.pchan ≡ drop (length (rounds 0 steps)) (accepted 0 steps))
    × (s.published ≡ bodies (λ m. some m.payload) (rounds 0 steps) (accepted 0 steps))
stream_steps-accepted_example = stream_steps-accepted (λ m. some m.payload) steps
