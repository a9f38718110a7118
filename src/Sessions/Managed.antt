-- ===== src/Sessions/Managed.antt =====
-- Runs of calls of the `Manager` of broker/persistence/sessions/sessions.go over the provider of
-- memsessions.go.
use thoth.Base.{
  ℕ, suc, ◌≡◌, ◌≢◌, refl, sym, subst, ap, ◌∙◌, arith, Option, none, some, List, [], ◌∷◌, ◌++◌,
  Bytes, Bytes-discrete, length, length-append, ite,
}
use thoth.Assoc.{lookup, lookup-insert_self, lookup-insert_ne, lookup-remove_self, lookup-remove_ne}
use thoth.Heap.{at_address, at_address-append, at_address-append_old, at_address-some}
use thoth.Sessions.Session.{no_session, new_session}
use thoth.Sessions.Store as Store
use thoth.Sessions.Store.{MemProvider}
use thoth.Sessions.Manager.{
  named, manager_new, manager_get, manager_del, manager_save, manager_close, mem_provider,
}

-- `New` has the identifier that is generated where its own is empty.
pub data Call : Type 0 where
  news : Bytes → Bytes → Call
  deletes : Bytes → Call
  saves : Bytes → Call
  closes : Call

abbrev pub manager_call : Call → MemProvider → MemProvider
manager_call (Call.news generated id) s = (manager_new mem_provider generated id s).0
manager_call (Call.deletes id) s = manager_del mem_provider id s
manager_call (Call.saves id) s = (manager_save mem_provider id s).0
manager_call Call.closes s = (manager_close mem_provider s).0

abbrev pub manager_calls : List Call → MemProvider → MemProvider
manager_calls [] s = s
manager_calls (x ∷ xs) s = manager_calls xs (manager_call x s)

abbrev pub key_of : Bytes → Bytes → Bytes
key_of generated [] = generated
key_of generated (x ∷ xs) = x ∷ xs

-- Which session an identifier has after the calls, told from them alone: the n-th `New` makes session n. Before
-- them n were made, and the identifier has the session of the last argument.
abbrev pub last_made : Bytes → List Call → ℕ → Option ℕ → Option ℕ
last_made id [] n last = last
last_made id (Call.news generated other ∷ xs) n last =
    last_made id xs (suc n) (ite (Bytes-discrete (key_of generated other) id) (some n) last)
last_made id (Call.deletes other ∷ xs) n last =
    last_made id xs n (ite (Bytes-discrete other id) none last)
last_made id (Call.saves other ∷ xs) n last = last_made id xs n last
last_made id (Call.closes ∷ xs) n last = last_made id xs n none

-- What `Get` gives for the identifier: nil and the error, or the session, which is one made for the identifier.
abbrev pub Gets : Bytes → Option ℕ → MemProvider → Type 0
Gets id none s = manager_get mem_provider id s ≡ (none, some no_session)
Gets id (some a) s =
    (manager_get mem_provider id s ≡ (some a, none)) × (at_address a s.heap ≡ some (new_session id))

abbrev Has : Bytes → ℕ → Option ℕ → MemProvider → Type 0
Has id n none s = (length s.heap ≡ n) × (lookup Bytes-discrete id s.st ≡ none)
Has id n (some a) s =
    (length s.heap ≡ n)
    × (lookup Bytes-discrete id s.st ≡ some a)
    × (at_address a s.heap ≡ some (new_session id))

Has-Gets :
    (id : Bytes) (n : ℕ) (last : Option ℕ) (s : MemProvider) → Has id n last s → Gets id last s
unfolding Store.get
Has-Gets id n none s (l, e) = rw (e, Store.get) refl
Has-Gets id n (some a) s (l, e, h) = (rw (e, Store.get) refl, h)

-- A session made under another identifier.
beside-Has :
    (id key : Bytes) (n : ℕ) (last : Option ℕ) (s : MemProvider)
    → key ≢ id
    → Has id n last s
    → Has id (suc n) last (Store.create key s).0
unfolding Store.create
beside-Has id key n none s k (l, e) = (
  omega (arith, l, length-append s.heap (new_session key ∷ [])),
  lookup-insert_ne Bytes-discrete (length s.heap) s.st k ∙ e,
)
beside-Has id key n (some a) s k (l, e, h) = (
  omega (arith, l, length-append s.heap (new_session key ∷ [])),
  lookup-insert_ne Bytes-discrete (length s.heap) s.st k ∙ e,
  at_address-append_old a s.heap (new_session key) (at_address-some a s.heap (new_session id) h)
      ∙ h,
)

size :
    (id : Bytes) (n : ℕ) (last : Option ℕ) (s : MemProvider) → Has id n last s → length s.heap ≡ n
size id n none s h = h.0
size id n (some a) s h = h.0

create-Has :
    (id key : Bytes) (n : ℕ) (last : Option ℕ) (s : MemProvider)
    → Has id n last s
    → Has id (suc n) (ite (Bytes-discrete key id) (some n) last) (Store.create key s).0
unfolding Store.create
create-Has id key n last s h = decided (Bytes-discrete key id)
  where
    decided : (d : Dec (key ≡ id)) → Has id (suc n) (ite d (some n) last) (Store.create key s).0
    decided (no k) = beside-Has id key n last s k h
    decided (yes k) =
        let e = size id n last s h in
        (
          omega (arith, e, length-append s.heap (new_session key ∷ [])),
          ap (λ x. lookup Bytes-discrete x (Store.create key s).0.st) (sym k)
              ∙ lookup-insert_self Bytes-discrete key (length s.heap) s.st
              ∙ ap some e,
          ap (λ a. at_address a (s.heap ++ new_session key ∷ [])) (sym e)
              ∙ at_address-append s.heap (new_session key)
              ∙ ap (λ x. some (new_session x)) k,
        )

del-Has :
    (id key : Bytes) (n : ℕ) (last : Option ℕ) (s : MemProvider)
    → Has id n last s
    → Has id n (ite (Bytes-discrete key id) none last) (Store.del key s)
del-Has id key n last s h = decided (Bytes-discrete key id) last h
  where
    decided :
        (d : Dec (key ≡ id)) (last : Option ℕ)
        → Has id n last s
        → Has id n (ite d none last) (Store.del key s)
    decided (no k) none (l, e) = (l, lookup-remove_ne Bytes-discrete s.st k ∙ e)
    decided (no k) (some a) (l, e, h) = (l, lookup-remove_ne Bytes-discrete s.st k ∙ e, h)
    decided (yes k) last h = (
      size id n last s h,
      ap (λ x. lookup Bytes-discrete x (Store.del key s).st) (sym k)
          ∙ lookup-remove_self Bytes-discrete key s.st,
    )

named-eq : (generated id : Bytes) → key_of generated id ≡ named generated id
named-eq generated [] = refl
named-eq generated (x ∷ xs) = ground arith

calls-Gets :
    (id : Bytes) (xs : List Call) (n : ℕ) (last : Option ℕ) (s : MemProvider)
    → Has id n last s
    → Gets id (last_made id xs n last) (manager_calls xs s)
unfolding lookup
calls-Gets id [] n last s h = Has-Gets id n last s h
calls-Gets id (Call.news generated other ∷ xs) n last s h =
    calls-Gets id xs (suc n) (ite (Bytes-discrete (key_of generated other) id) (some n) last)
      (Store.create (named generated other) s).0
      (subst
        (λ k.
          Has id (suc n) (ite (Bytes-discrete (key_of generated other) id) (some n) last)
            (Store.create k s).0)
        (named-eq generated other) (create-Has id (key_of generated other) n last s h))
calls-Gets id (Call.deletes other ∷ xs) n last s h =
    calls-Gets id xs n (ite (Bytes-discrete other id) none last) (Store.del other s)
      (del-Has id other n last s h)
calls-Gets id (Call.saves other ∷ xs) n last s h = calls-Gets id xs n last s h
calls-Gets id (Call.closes ∷ xs) n last s h =
    calls-Gets id xs n none (Store.close s) (size id n last s h, refl)

-- After any calls of the manager over a new provider: `Get` gives for an identifier the session that the last
-- `New` of it made, which carries the identifier, or an error where there was none, or where a `Del` of
-- the identifier or a `Close` came after it. An empty identifier of `New` stands for the one that it generates.
pub manager_get-last_made :
    (id : Bytes) (xs : List Call)
    → Gets id (last_made id xs 0 none) (manager_calls xs Store.new_mem_provider)
unfolding lookup
manager_get-last_made id xs = calls-Gets id xs 0 none Store.new_mem_provider (refl, refl)
