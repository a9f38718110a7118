-- ===== src/Sessions/Session.antt =====
-- `Session` of broker/persistence/sessions/session.go. The mutex makes each method one step.
use thoth.Base.{
  ℕ, Bool, true, false, Option, none, some, List, [], Bytes, Bytes-discrete, map, if◌then◌else◌,
}
use mathlib.Core.Option
use thoth.Packets.{PublishPacket, ConnectPacket}
use thoth.Assoc.{insert, remove}

-- `topics` is the map from a topic to its QoS; nil and the empty map are both [].
pub record Session : Type 0 where
  pub cmsg : Option ConnectPacket
  pub will : Option PublishPacket
  pub retained : Option PublishPacket
  pub topics : List (Bytes × ℕ)
  pub initted : Bool
  pub id : Bytes

pub data SessionError : Type 0 where
  already_initialized not_initialized no_session : SessionError

-- `&Session{id: id}`
abbrev pub new_session : Bytes → Session
new_session id = record {
  cmsg = none;
  will = none;
  retained = none;
  topics = [];
  initted = false;
  id = id;
}

-- The will of a CONNECT: its QoS is `cmsg.Qos`, the bits of the fixed header.
abbrev pub will_of : ConnectPacket → PublishPacket
will_of msg = record {
  message_id = 0;
  topic_name = msg.will_topic;
  qos = msg.qos;
  retain = msg.will_retain;
  dup = false;
  payload = msg.will_message;
}

unfoldable pub init : ConnectPacket → Session → Session × Option SessionError
init msg s = if s.initted then (s, some already_initialized) else (
  record s {
    cmsg = some msg;
    will = if msg.will_flag then some (will_of msg) else s.will;
    topics = [];
    id = msg.client_identifier;
    initted = true;
  },
  none,
)

abbrev pub update : ConnectPacket → Session → Session
update msg s = record s { cmsg = some msg }

abbrev pub retain_message : PublishPacket → Session → Session
retain_message msg s = record s { retained = some msg }

unfoldable pub add_topic : Bytes → ℕ → Session → Session × Option SessionError
add_topic topic qos s =
    if s.initted
    then (record s { topics = insert Bytes-discrete topic qos s.topics }, none)
    else (s, some not_initialized)

unfoldable pub remove_topic : Bytes → Session → Session × Option SessionError
remove_topic topic s =
    if s.initted
    then (record s { topics = remove Bytes-discrete topic s.topics }, none)
    else (s, some not_initialized)

-- `Topics`: the two slices and the error.
unfoldable pub all_topics : Session → List Bytes × List ℕ × Option SessionError
all_topics s =
    if s.initted
    then (map (λ e. e.0) s.topics, map (λ e. e.1) s.topics, none)
    else ([], [], some not_initialized)

-- `WillFlag` and its companions read `cmsg`, which panics on nil: none.
abbrev pub will_flag : Session → Option Bool
will_flag s = Option.map (λ c. c.will_flag) s.cmsg

abbrev pub set_will_flag : Bool → Session → Option Session
set_will_flag v s = Option.map (λ c. record s { cmsg = some (record c { will_flag = v }) }) s.cmsg

abbrev pub clean_session : Session → Option Bool
clean_session s = Option.map (λ c. c.clean_session) s.cmsg

-- `ID`: the identifier of the CONNECT, and not the field `id`.
abbrev pub identifier : Session → Option Bytes
identifier s = Option.map (λ c. c.client_identifier) s.cmsg
