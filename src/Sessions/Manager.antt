-- ===== src/Sessions/Manager.antt =====
-- `SessionsProvider` and the methods of `Manager` in broker/persistence/sessions/sessions.go, and the
-- provider of memsessions.go as one.
use thoth.Base.{ℕ, ◌≡◌, refl, Option, none, some, [], Bytes, length, ◌==◌, if◌then◌else◌}
use thoth.Sessions.Session.{SessionError}
use thoth.Sessions.Store as Store
use thoth.Sessions.Store.{MemProvider}

-- The methods over a state of the provider; a session is its address, nil is none.
pub record SessionsProvider (S : Type 0) : Type 0 where
  pub new : Bytes → S → S × Option ℕ × Option SessionError
  pub get : Bytes → S → Option ℕ × Option SessionError
  pub del : Bytes → S → S
  pub save : Bytes → S → S × Option SessionError
  pub count : S → ℕ
  pub close : S → S × Option SessionError

-- `sessionId`: 15 bytes that the random source gives, encoded by `base64.URLEncoding`, or nothing where it
-- fails.
abbrev pub session_id : (Bytes → Bytes) → Option Bytes → Bytes
session_id encode_to_string none = []
session_id encode_to_string (some b) = encode_to_string b

-- `if id == "" { id = this.sessionId() }`
abbrev pub named : Bytes → Bytes → Bytes
named generated id = if length id == 0 then generated else id

-- The methods of `Manager`, whose field is the provider.
module _ {S : Type 0} (p : SessionsProvider S) where
  abbrev pub manager_new : Bytes → Bytes → S → S × Option ℕ × Option SessionError
  manager_new generated id s = p.new (named generated id) s

  abbrev pub manager_get : Bytes → S → Option ℕ × Option SessionError
  manager_get id s = p.get id s

  abbrev pub manager_del : Bytes → S → S
  manager_del id s = p.del id s

  abbrev pub manager_save : Bytes → S → S × Option SessionError
  manager_save id s = p.save id s

  abbrev pub manager_count : S → ℕ
  manager_count s = p.count s

  abbrev pub manager_close : S → S × Option SessionError
  manager_close s = p.close s

-- The provider named "mem".
abbrev pub mem_provider : SessionsProvider MemProvider
mem_provider = record {
  new = λ id s. ((Store.create id s).0, some (Store.create id s).1, none);
  get = Store.get;
  del = Store.del;
  save = λ id s. (s, Store.save id s);
  count = Store.count;
  close = λ s. (Store.close s, none);
}

-- `getSession` makes its sessions by this manager.
pub create_managed-eq :
    (generated id : Bytes) (s : MemProvider)
    → manager_new mem_provider generated id s ≡ (
      (Store.create_managed generated id s).0,
      some (Store.create_managed generated id s).1,
      none,
    )
unfolding Store.create_managed
create_managed-eq generated id s = refl
