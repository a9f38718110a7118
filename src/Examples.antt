-- ===== src/Examples.antt =====
-- Runs of the sessions (broker/persistence/sessions, broker/session.go), of a client
-- (broker/client.go, broker/comm.go), and of the maps of utils/utils.go and the registries.
mod Providers
use thoth.Base.{
  pos, Option, ◌<◌, ◌%◌, ℕ, ◌≡◌, refl, arith, inr, Bool, true, false, none, some, List, [], ◌∷◌,
  Bytes, Bytes-discrete, ℕ_discrete, set,
}
use thoth.Packets.{PublishPacket, ConnectPacket, ConnackPacket, ControlPacket}
use thoth.Assoc.{lookup}
use thoth.Sessions.Session.{Session, add_topic, update}
use thoth.Sessions.Store.{MemProvider, cleaned, get_session}
use thoth.Sessions.Laws.{IsFresh, opened, get_session-IsFresh}
use thoth.Client.{InflightElement, Client, ClientError, init, close}
use thoth.Client.Fields.{extract_packet_fields, AllWellFormed}
use thoth.Client.Inbound.{IsBounded, is_awaiting_full, register_publish_packet_id}
use thoth.Client.Once as Once
use thoth.Client.Once.{Event, register-once}
use thoth.Client.Limit.{run-IsBounded}
use thoth.Client.Outbound.{published, publish, process_puback}
use thoth.Client.Inflight.{process_puback-react_all}
use thoth.Client.Silence as Silence
use thoth.Client.Silence.{Input, IsSilent, react_all, close-silences}
use thoth.Client.Armed.{IsArmed, react_all-IsArmed}
use thoth.SubMap.{SubMap, add_sub_map, del_sub_map, IsStale, sub_map-IsStale}
use thoth.Pool.{new, queue, submit_all, tasks_of, submit_all-tasks_of}
use thoth.Config.{Environment, configuration, load_config}
use thoth.Config.Loaded.{load_config-twice}

abbrev request : ConnectPacket
request = record {
  client_identifier = 99 ∷ [];
  username = [];
  password = [];
  keepalive = 60;
  clean_session = false;
  will_flag = true;
  will_qos = 1;
  will_retain = false;
  will_topic = 119 ∷ [];
  will_message = 1 ∷ [];
  qos = 0;
  dup = false;
}

abbrev response : ConnackPacket
response = record { session_present = false; return_code = 0 }

-- One session, of this request, is stored.
abbrev stored : MemProvider
stored = record { heap = opened request ∷ []; st = (99 ∷ [], 0) ∷ [] }

abbrev other_request : ConnectPacket
other_request = record request { client_identifier = 100 ∷ [] }

get_session-IsFresh_example :
    IsFresh
      (1 ∷ [])
      (cleaned other_request)
      stored
      0
      (99 ∷ [])
      (get_session (1 ∷ []) other_request response stored)
unfolding lookup Bytes-discrete
get_session-IsFresh_example =
    get_session-IsFresh (1 ∷ []) other_request response stored 0 (99 ∷ []) (inr refl) (omega arith)
      (λ h. ground arith)

-- The session gets a topic before its client comes back.
abbrev with_topic : Session → Session
with_topic s = (add_topic (97 ∷ []) 1 s).0

abbrev message : ℕ → PublishPacket
message qos = record {
  message_id = 5;
  topic_name = 97 ∷ [];
  qos = qos;
  retain = false;
  dup = false;
  payload = 1 ∷ [];
}

abbrev all_written : ControlPacket → Bool
all_written packet = true

abbrev events : List Event
events = Once.published 11 5 ∷ Once.released all_written 6 ∷ Once.expired 29 ∷ []

register-once_example :
    let d = Once.run events (register_publish_packet_id 10 5 init).0 in
    (e : ClientError) × (register_publish_packet_id 12 5 d ≡ (d, some e))
unfolding register_publish_packet_id is_awaiting_full lookup
register-once_example =
    register-once 10 12 5 events init refl (tt, ((λ h. omega arith), (omega arith, tt)))

run-IsBounded_example : IsBounded (Once.run events (record init { max_awaiting_rel = 1 }))
run-IsBounded_example =
    run-IsBounded events (record init { max_awaiting_rel = 1 }) (inr (omega arith))

abbrev sender : Client
sender = publish all_written 10 (message 1) init

abbrev inputs : List Input
inputs =
    Silence.puback 5
    ∷ Silence.pubrel 7
    ∷ Silence.delivery 12 (message 1)
    ∷ Silence.timer 50
    ∷ Silence.ping
    ∷ []

-- A PUBACK of another identifier, a PUBREC, another message and a tick of the timer.
abbrev meanwhile : List Input
meanwhile =
    Silence.puback 7
    ∷ Silence.pubrec 12 5
    ∷ Silence.delivery 13 (record (message 1) { message_id = 6 })
    ∷ Silence.timer 100
    ∷ []

process_puback-react_all_example :
    let d = react_all all_written meanwhile (publish all_written 10 (message 1) init) in
    ((e : InflightElement) × (lookup ℕ_discrete 5 d.inflight ≡ some e) × (e.packet ≡ message 1))
    × (lookup ℕ_discrete 5 (process_puback 5 d).inflight ≡ none)
    × (lookup ℕ_discrete 6 (process_puback 5 d).inflight ≡ lookup ℕ_discrete 6 d.inflight)
unfolding lookup
process_puback-react_all_example =
    process_puback-react_all all_written 10 (message 1) meanwhile 6 init refl refl
      ((λ e. cc), (tt, ((λ e. cc), (tt, tt)))) (λ e. cc)

abbrev counted : SubMap
counted = (97 ∷ [], 3) ∷ []

sub_map-IsStale_example : IsStale (98 ∷ []) (del_sub_map (98 ∷ []) (add_sub_map (98 ∷ []) counted))
unfolding lookup Bytes-discrete
sub_map-IsStale_example = sub_map-IsStale (98 ∷ []) counted refl

abbrev submissions : List (Bytes × Option ℕ)
submissions = (97 ∷ [], some 1) ∷ (98 ∷ [], some 2) ∷ (97 ∷ [], none) ∷ (97 ∷ [], some 3) ∷ []

abbrev first_byte : Bytes → ℕ
first_byte [] = 0
first_byte (c ∷ cs) = c

react_all-IsArmed_example :
    IsArmed (react_all all_written (Silence.delivery 12 (message 1) ∷ Silence.timer 50 ∷ []) init)
react_all-IsArmed_example =
    react_all-IsArmed all_written (Silence.delivery 12 (message 1) ∷ Silence.timer 50 ∷ []) init
      refl

-- A port that does not parse.
abbrev environment : Environment
environment = record {
  getenv = λ s. 120 ∷ [];
  split = λ s. s ∷ [];
  parse_bool = λ s. none;
  atoi = λ s. none;
}

load_config-twice_example :
    ((load_config environment configuration none).1 ≡ none)
    × ((load_config environment (load_config environment configuration none).0 none).0
        ≡ (load_config environment configuration none).0)
load_config-twice_example = load_config-twice environment configuration
