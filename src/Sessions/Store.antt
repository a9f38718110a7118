-- ===== src/Sessions/Store.antt =====
-- `memProvider` of broker/persistence/sessions/memsessions.go, the registry and `Manager` of
-- sessions.go, and `getSession` of broker/session.go. A `*Session` is an address in the heap of the
-- sessions, so that a session of the store and the one of a client are one object.
use thoth.Base.{
  ℕ, true, false, Option, none, some, List, [], ◌∷◌, ◌++◌, Bytes, Bytes-discrete, length, set, ◌==◌,
  if◌then◌else◌,
}
use thoth.Packets.{ConnectPacket, ConnackPacket}
use thoth.Heap.{at_address}
use thoth.Assoc.{lookup, insert, remove}
use thoth.Sessions.Session.{Session, SessionError, no_session, new_session, init, update}

-- The heap, and the map `st` from an identifier to an address.
pub record MemProvider : Type 0 where
  pub heap : List Session
  pub st : List (Bytes × ℕ)

abbrev pub new_mem_provider : MemProvider
new_mem_provider = record { heap = []; st = [] }

-- `New`: the address of the session made.
unfoldable pub create : Bytes → MemProvider → MemProvider × ℕ
create id p = (
  record {
    heap = p.heap ++ new_session id ∷ [];
    st = insert Bytes-discrete id (length p.heap) p.st;
  },
  length p.heap,
)

-- `Get`
unfoldable pub get : Bytes → MemProvider → Option ℕ × Option SessionError
get id p = elim (lookup Bytes-discrete id p.st) [
  | none ↦ (none, some no_session)
  | some a ↦ (some a, none)
]

-- `Del`
abbrev pub del : Bytes → MemProvider → MemProvider
del id p = record p { st = remove Bytes-discrete id p.st }

-- `Save`
abbrev pub save : Bytes → MemProvider → Option SessionError
save id p = none

abbrev pub count : MemProvider → ℕ
count p = length p.st

abbrev pub close : MemProvider → MemProvider
close p = record p { st = [] }

-- `Manager.New` with `generated` for `sessionId()`: 15 random bytes in base64.
unfoldable pub create_managed : Bytes → Bytes → MemProvider → MemProvider × ℕ
create_managed generated id p = create (if length id == 0 then generated else id) p

abbrev pub with_object : ℕ → (Session → Session) → MemProvider → MemProvider
with_object a f p = elim (at_address a p.heap) [
  | none ↦ p
  | some s ↦ record p { heap = set p.heap a (f s) }
]

-- What `getSession` leaves: the store, `cli.session`, the request and the answer, and the error.
pub record Answer : Type 0 where
  pub store : MemProvider
  pub session : Option ℕ
  pub req : ConnectPacket
  pub resp : ConnackPacket
  pub error : Option SessionError

-- `if len(req.ClientIdentifier) == 0 { req.CleanSession = true }`
abbrev pub cleaned : ConnectPacket → ConnectPacket
cleaned req = record req {
  clean_session = if length req.client_identifier == 0 then true else req.clean_session;
}

-- `if cli.session == nil { ... }`: the new session, initialised.
unfoldable pub fresh_session : Bytes → ConnectPacket → ConnackPacket → MemProvider → Answer
fresh_session generated req resp p =
    let (p', a) = create_managed generated req.client_identifier p in
    elim (at_address a p'.heap) [
      | none ↦ record {
        store = p';
        session = some a;
        req = req;
        resp = record resp { session_present = false };
        error = some no_session;
      }
      | some s ↦
          let (s', e) = init req s in
          record {
            store = record p' { heap = set p'.heap a s' };
            session = some a;
            req = req;
            resp = record resp { session_present = false };
            error = e;
          }
    ]

-- The session found for a request that is not clean; none goes on to a new one.
unfoldable pub old_session : ConnectPacket → ConnackPacket → MemProvider → Option Answer
old_session req resp p = elim (get req.client_identifier p).0 [
  | none ↦ none
  | some a ↦ some (record {
    store = with_object a (update req) p;
    session = some a;
    req = req;
    resp = record resp { session_present = true };
    error = none;
  })
]

-- `cli.session` is nil when `getSession` is called, on a client just made.
unfoldable pub get_session : Bytes → ConnectPacket → ConnackPacket → MemProvider → Answer
get_session generated req resp p =
    if (cleaned req).clean_session
    then fresh_session generated (cleaned req) resp p
    else elim (old_session (cleaned req) resp p) [
      | none ↦ fresh_session generated (cleaned req) resp p
      | some a ↦ a
    ]
