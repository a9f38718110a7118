-- ===== src/Sessions/Reconnect.antt =====
-- A client that comes back: two calls of `getSession` of broker/session.go, with what was done to the session
-- in between.
use thoth.Base.{ℕ, ◌≡◌, true, none, some}
use thoth.Packets.{ConnectPacket}
use thoth.Heap.{at_address, modify}
use thoth.Sessions.Session.{Session}
use thoth.Sessions.Store.{MemProvider, Answer, cleaned}

-- The session of the answer is changed, through the client that has it.
abbrev pub used : (Session → Session) → Answer → MemProvider
used f a = elim a.session [
  | none ↦ a.store
  | some x ↦ record a.store { heap = modify x f a.store.heap }
]

-- The session of the first answer is given again, said to be present, without an error; its topics are as they
-- were left, and its CONNECT is the new one.
abbrev pub IsResumed : Answer → Answer → Session → ConnectPacket → Type 0
IsResumed a a' s req =
    (a'.session ≡ a.session)
    × (a'.resp.session_present ≡ true)
    × (a'.error ≡ none)
    × ((x : ℕ) × (s' : Session) × (a'.session ≡ some x)
        × (at_address x a'.store.heap ≡ some s')
        × (s'.topics ≡ s.topics)
        × (s'.retained ≡ s.retained)
        × (s'.cmsg ≡ some (cleaned req)))
