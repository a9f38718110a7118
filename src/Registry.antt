-- ===== src/Registry.antt =====
-- The registries of providers: `Register`, `Unregister` and `NewManager` of
-- broker/persistence/topics/topics.go and broker/persistence/sessions/sessions.go, which are the
-- same code over two types of provider, here `P`.
use thoth.Base.{◌≡◌, ◌≢◌, refl, Option, none, some, List, Bytes, Bytes-discrete}
use thoth.Assoc.{lookup, insert, remove, lookup-insert_self, lookup-insert_ne, remove-insert_new}

module _ {P : Type 0} where
  -- A nil provider and a name that is taken panic: none.
  unfoldable pub register : Bytes → Option P → List (Bytes × P) → Option (List (Bytes × P))
  register name provider providers = elim provider [
    | none ↦ none
    | some p ↦ elim (lookup Bytes-discrete name providers) [
      | some dup ↦ none
      | none ↦ some (insert Bytes-discrete name p providers)
    ]
  ]

  abbrev pub unregister : Bytes → List (Bytes × P) → List (Bytes × P)
  unregister name providers = remove Bytes-discrete name providers

  -- The provider of the manager; an unknown name is an error: none.
  abbrev pub new_manager : Bytes → List (Bytes × P) → Option P
  new_manager name providers = lookup Bytes-discrete name providers

  register-free :
      (name : Bytes) (p : P) (providers : List (Bytes × P))
      → lookup Bytes-discrete name providers ≡ none
      → register name (some p) providers ≡ some (insert Bytes-discrete name p providers)
  unfolding register
  register-free name p providers h = rw (h, register) refl

  -- A provider registered under a free name is the one that a manager of that name has, and the
  -- managers of the other names are as before. A second registration of the name panics, and
  -- `Unregister` leaves the registry as it was.
  pub new_manager-register :
      (name other : Bytes) (p : P) (q : Option P) (providers : List (Bytes × P))
      → new_manager name providers ≡ none
      → name ≢ other
      → (after : List (Bytes × P)) × (register name (some p) providers ≡ some after)
        × (new_manager name after ≡ some p)
        × (new_manager other after ≡ new_manager other providers)
        × (register name q after ≡ none)
        × (unregister name after ≡ providers)
  unfolding register
  new_manager-register name other p q providers h n = (
    insert Bytes-discrete name p providers,
    register-free name p providers h,
    lookup-insert_self Bytes-discrete name p providers,
    lookup-insert_ne Bytes-discrete p providers n,
    taken q,
    remove-insert_new Bytes-discrete name p providers h,
  )
    where
      taken : (q : Option P) → register name q (insert Bytes-discrete name p providers) ≡ none
      taken none = refl
      taken (some q) = rw (lookup-insert_self Bytes-discrete name p providers, register) refl
