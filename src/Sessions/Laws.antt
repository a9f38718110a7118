-- ===== src/Sessions/Laws.antt =====
-- What `getSession` of broker/session.go answers, over the store of broker/persistence/sessions.
use thoth.Base.{
  ℕ, ◌<◌, ◌≡◌, ◌≢◌, refl, sym, subst, arith, inl, inr, ◌⊎◌, true, false, none, some, [], ◌∷◌, ◌++◌,
  Bytes, Bytes-discrete, length, set, ◌==◌, if◌then◌else◌,
}
use thoth.Packets.{ConnectPacket, ConnackPacket}
use thoth.Heap.{at_address, at_address-append, at_address-append_old, set-append}
use thoth.Assoc.{lookup, insert, lookup-insert_self, lookup-insert_ne}
use thoth.Sessions.Session.{Session, new_session, will_of, init, update}
use thoth.Sessions.Store.{
  MemProvider, Answer, create, get, create_managed, with_object, cleaned, fresh_session,
  old_session, get_session,
}

-- The session that `Init` makes of a request.
abbrev pub opened : ConnectPacket → Session
opened req = record {
  cmsg = some req;
  will = if req.will_flag then some (will_of req) else none;
  retained = none;
  topics = [];
  initted = true;
  id = req.client_identifier;
}

-- The key that a session is stored under.
abbrev pub key : Bytes → ConnectPacket → Bytes
key generated req = if length req.client_identifier == 0 then generated else req.client_identifier

pub fresh_session-lem :
    (generated : Bytes) (req : ConnectPacket) (resp : ConnackPacket) (p : MemProvider)
    → fresh_session generated req resp p ≡ record {
      store = record {
        heap = p.heap ++ opened req ∷ [];
        st = insert Bytes-discrete (key generated req) (length p.heap) p.st;
      };
      session = some (length p.heap);
      req = req;
      resp = record resp { session_present = false };
      error = none;
    }
unfolding fresh_session create_managed create init
fresh_session-lem generated req resp p =
    rw
      (
        fresh_session,
        create_managed,
        create,
        at_address-append p.heap (new_session (key generated req)),
        init,
        set-append p.heap (new_session (key generated req)) (opened req),
      )
      refl

-- The answer has no error and says that no session was present; the session it names is new,
-- opened with the request, and stored under the key; the session at b and the key id are as before.
abbrev pub IsFresh : Bytes → ConnectPacket → MemProvider → ℕ → Bytes → Answer → Type 0
IsFresh generated req p b id a =
    (a.error ≡ none)
    × (a.resp.session_present ≡ false)
    × (a.session ≡ some (length p.heap))
    × (at_address (length p.heap) a.store.heap ≡ some (opened req))
    × (at_address b a.store.heap ≡ at_address b p.heap)
    × (lookup Bytes-discrete (key generated req) a.store.st ≡ some (length p.heap))
    × (lookup Bytes-discrete id a.store.st ≡ lookup Bytes-discrete id p.st)

fresh_session-IsFresh :
    (generated : Bytes) (req : ConnectPacket) (resp : ConnackPacket) (p : MemProvider) (b : ℕ)
    (id : Bytes)
    → b < length p.heap
    → key generated req ≢ id
    → IsFresh generated req p b id (fresh_session generated req resp p)
fresh_session-IsFresh generated req resp p b id l n =
    subst (IsFresh generated req p b id) (sym (fresh_session-lem generated req resp p)) (
      refl,
      refl,
      refl,
      at_address-append p.heap (opened req),
      at_address-append_old b p.heap (opened req) l,
      lookup-insert_self Bytes-discrete (key generated req) (length p.heap) p.st,
      lookup-insert_ne Bytes-discrete (length p.heap) p.st n,
    )

old_session-none :
    (req : ConnectPacket) (resp : ConnackPacket) (p : MemProvider)
    → lookup Bytes-discrete req.client_identifier p.st ≡ none
    → old_session req resp p ≡ none
unfolding old_session get
old_session-none req resp p h = rw (old_session, get, h) refl

pub get_session-eq-fresh :
    (generated : Bytes) (req : ConnectPacket) (resp : ConnackPacket) (p : MemProvider)
    → ((cleaned req).clean_session ≡ true)
      ⊎ (lookup Bytes-discrete req.client_identifier p.st ≡ none)
    → get_session generated req resp p ≡ fresh_session generated (cleaned req) resp p
unfolding get_session
get_session-eq-fresh generated req resp p (inl c) = ground arith
get_session-eq-fresh generated req resp p (inr h) =
    ground (arith, old_session-none (cleaned req) resp p h)

-- When the request is clean or has no identifier, or no session is stored under its identifier,
-- `getSession` stores a new session opened with the request, under the identifier (under the
-- generated key when there is none). It answers that no session was present, without an error,
-- and changes neither a session that was there nor another key.
pub get_session-IsFresh :
    (generated : Bytes) (req : ConnectPacket) (resp : ConnackPacket) (p : MemProvider) (b : ℕ)
    (id : Bytes)
    → ((cleaned req).clean_session ≡ true)
      ⊎ (lookup Bytes-discrete req.client_identifier p.st ≡ none)
    → b < length p.heap
    → key generated req ≢ id
    → IsFresh generated (cleaned req) p b id (get_session generated req resp p)
get_session-IsFresh generated req resp p b id h l n =
    subst (IsFresh generated (cleaned req) p b id)
      (sym (get_session-eq-fresh generated req resp p h))
      (fresh_session-IsFresh generated (cleaned req) resp p b id l n)

old_session-some :
    (req : ConnectPacket) (resp : ConnackPacket) (p : MemProvider) (a : ℕ) (s : Session)
    → lookup Bytes-discrete req.client_identifier p.st ≡ some a
    → at_address a p.heap ≡ some s
    → old_session req resp p
      ≡ some (record {
        store = record p { heap = set p.heap a (update req s) };
        session = some a;
        req = req;
        resp = record resp { session_present = true };
        error = none;
      })
unfolding old_session get
old_session-some req resp p a s h o = rw (old_session, get, h, with_object, o) refl

-- When the request is not clean and a session stands under its identifier, `getSession` answers
-- that session with the request as its new CONNECT, says that it was present, reports no error,
-- and changes no other session and no key.
pub get_session-resumes :
    (generated : Bytes) (req : ConnectPacket) (resp : ConnackPacket) (p : MemProvider) (a : ℕ)
    (s : Session)
    → (cleaned req).clean_session ≡ false
    → lookup Bytes-discrete req.client_identifier p.st ≡ some a
    → at_address a p.heap ≡ some s
    → get_session generated req resp p ≡ record {
      store = record p { heap = set p.heap a (update (cleaned req) s) };
      session = some a;
      req = cleaned req;
      resp = record resp { session_present = true };
      error = none;
    }
unfolding get_session
get_session-resumes generated req resp p a s c h o =
    ground (arith, old_session-some (cleaned req) resp p a s h o)
