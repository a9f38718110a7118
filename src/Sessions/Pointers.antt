-- ===== src/Sessions/Pointers.antt =====
-- The pointers of the store of sessions, and of the answers of `getSession`, lead to sessions.
use thoth.Base.{
  ℕ, ◌≡◌, ◌<◌, ◌≤◌, refl, sym, subst, arith, inl, inr, ◌⊎◌, true, false, Option, none, some, [],
  ◌∷◌, ◌++◌, Bytes, Bytes-discrete, length, length-append, length-set, Bool-cases, Option-cases,
}
use thoth.Packets.{ConnectPacket, ConnackPacket}
use thoth.All.{All-map, Values, Values-insert, Values-lookup}
use thoth.Assoc.{lookup}
use thoth.Heap.{at_address-lt}
use thoth.Sessions.Session.{update}
use thoth.Sessions.Store.{MemProvider, Answer, cleaned, fresh_session, get_session}
use thoth.Sessions.Laws.{opened, key, fresh_session-lem, get_session-eq-fresh, get_session-resumes}

abbrev pub IsMemProvider : MemProvider → Type 0
IsMemProvider p = Values Bytes-discrete (λ a. a < length p.heap) p.st

abbrev pub IsSession : ℕ → Option ℕ → Type 0
IsSession n none = ⊥
IsSession n (some a) = a < n

-- The store of the answer is valid and has grown, a session is named that is in it, and there is no
-- error.
abbrev pub IsAnswer : MemProvider → Answer → Type 0
IsAnswer p a =
    IsMemProvider a.store
    × (length p.heap ≤ length a.store.heap)
    × IsSession (length a.store.heap) a.session
    × (a.error ≡ none)

fresh_session-IsAnswer :
    (generated : Bytes) (req : ConnectPacket) (resp : ConnackPacket) (p : MemProvider)
    → IsMemProvider p
    → IsAnswer p (fresh_session generated req resp p)
fresh_session-IsAnswer generated req resp p v =
    subst (IsAnswer p) (sym (fresh_session-lem generated req resp p)) (
      Values-insert Bytes-discrete (λ a. a < length (p.heap ++ opened req ∷ [])) (key generated req)
          (length p.heap) p.st longer
          (All-map (λ e. e.1 < length p.heap) (λ e. e.1 < length (p.heap ++ opened req ∷ []))
            (λ e l. omega (arith, l, longer)) p.st v),
      omega (arith, longer),
      longer,
      refl,
    )
  where
    longer : length p.heap < length (p.heap ++ opened req ∷ [])
    longer = omega (arith, length-append p.heap (opened req ∷ []))

pub get_session-IsAnswer :
    (generated : Bytes) (req : ConnectPacket) (resp : ConnackPacket) (p : MemProvider)
    → IsMemProvider p
    → IsAnswer p (get_session generated req resp p)
get_session-IsAnswer generated req resp p v = elim (Bool-cases (cleaned req).clean_session) [
  | inl c ↦ fresh (inl c)
  | inr c ↦ elim (Option-cases (lookup Bytes-discrete req.client_identifier p.st)) [
    | inl e ↦ fresh (inr e)
    | inr (a, e) ↦
        resumed c a e
          (Values-lookup Bytes-discrete (λ a. a < length p.heap) req.client_identifier a p.st v e)
  ]
]
  where
    fresh :
        ((cleaned req).clean_session ≡ true)
          ⊎ (lookup Bytes-discrete req.client_identifier p.st ≡ none)
        → IsAnswer p (get_session generated req resp p)
    fresh h =
        subst (IsAnswer p) (sym (get_session-eq-fresh generated req resp p h))
          (fresh_session-IsAnswer generated (cleaned req) resp p v)

    resumed :
        (cleaned req).clean_session ≡ false
        → (a : ℕ) → lookup Bytes-discrete req.client_identifier p.st ≡ some a
        → a < length p.heap
        → IsAnswer p (get_session generated req resp p)
    resumed c a e l =
        let (s, h) = at_address-lt a p.heap l in
        subst (IsAnswer p) (sym (get_session-resumes generated req resp p a s c e h))
          (rw (length-set p.heap a (update (cleaned req) s)) (v, omega arith, l, refl))
