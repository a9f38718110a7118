-- ===== src/Broker/System/Workers.antt =====
-- The messages of one client that the workers of pool/pool.go hold.
use thoth.Base.{
  ℕ, zero, suc, ◌≡◌, ◌≢◌, refl, sym, ap, ◌∙◌, Bool, true, false, none, some, List, [], ◌∷◌, ◌++◌,
  set, ◌==◌, if◌then◌else◌,
}
use thoth.Packets.{ControlPacket}
use thoth.Heap.{at_address}
use thoth.Broker.System.{Worker, idle_workers}

-- The messages of client c among those of all clients.
abbrev pub messages_of : ℕ → List (ℕ × ControlPacket) → List ControlPacket
messages_of c [] = []
messages_of c ((a, x) ∷ ms) = if a == c then x ∷ messages_of c ms else messages_of c ms

abbrev pub held : ℕ → Worker → List ControlPacket
held c Worker.idle = []
held c Worker.returned = []
held c (Worker.busy a x) = if a == c then x ∷ [] else []

abbrev pub in_flight : ℕ → List Worker → List ControlPacket
in_flight c [] = []
in_flight c (w ∷ ws) = held c w ++ in_flight c ws

-- No worker but the one at the index holds a message of client c.
abbrev pub OnlyAt : ℕ → ℕ → List Worker → Type 0
OnlyAt c i [] = Unit
OnlyAt c zero (w ∷ ws) = in_flight c ws ≡ []
OnlyAt c (suc i) (w ∷ ws) = (held c w ≡ []) × OnlyAt c i ws

not_found : {A : Type 0} → (x : A) → none ≡ some x → ⊥
not_found x e = cc

some_eq : (v w : Worker) → some v ≡ some w → v ≡ w
some_eq v w e = cc

append-nothing : (xs ys : List ControlPacket) → xs ++ ys ≡ [] → (xs ≡ []) × (ys ≡ [])
append-nothing [] ys e = (refl, e)
append-nothing (x ∷ xs) ys e = cc

if-append :
    (x : ControlPacket) (b : Bool) (xs ys zs : List ControlPacket)
    → xs ≡ ys ++ zs
    → (if b then x ∷ xs else xs) ≡ (if b then x ∷ ys else ys) ++ zs
if-append x true xs ys zs e = ap (◌∷◌ x) e
if-append x false xs ys zs e = e

pub messages_of-append :
    (c : ℕ) (ms ns : List (ℕ × ControlPacket))
    → messages_of c (ms ++ ns) ≡ messages_of c ms ++ messages_of c ns
messages_of-append c [] ns = refl
messages_of-append c ((a, x) ∷ ms) ns = if-append x (a == c) _ _ _ (messages_of-append c ms ns)

pub idle-in_flight : (c n : ℕ) → in_flight c (idle_workers n) ≡ []
idle-in_flight c zero = refl
idle-in_flight c (suc n) = idle-in_flight c n

-- Where nothing is held, any index will do.
pub nothing-OnlyAt : (c i : ℕ) (ws : List Worker) → in_flight c ws ≡ [] → OnlyAt c i ws
nothing-OnlyAt c i [] e = tt
nothing-OnlyAt c zero (w ∷ ws) e = (append-nothing (held c w) (in_flight c ws) e).1
nothing-OnlyAt c (suc i) (w ∷ ws) e =
    let (h, k) = append-nothing (held c w) (in_flight c ws) e in (h, nothing-OnlyAt c i ws k)

-- What the worker at the index holds is all that is held.
pub in_flight-OnlyAt :
    (c i : ℕ) (ws : List Worker) (w : Worker)
    → OnlyAt c i ws
    → at_address i ws ≡ some w
    → in_flight c ws ≡ held c w
in_flight-OnlyAt c i [] w o e = absurd (not_found w e)
in_flight-OnlyAt c zero (v ∷ ws) w o e =
    ap (held c v ++◌) o ∙ append_nothing (held c v) ∙ ap (held c) (some_eq v w e)
  where
    append_nothing : (xs : List ControlPacket) → xs ++ [] ≡ xs
    append_nothing [] = refl
    append_nothing (x ∷ xs) = ap (◌∷◌ x) (append_nothing xs)
in_flight-OnlyAt c (suc i) (v ∷ ws) w (h, o) e =
    ap (◌++ in_flight c ws) h ∙ in_flight-OnlyAt c i ws w o e

pub set-OnlyAt : (c i : ℕ) (ws : List Worker) (w : Worker) → OnlyAt c i ws → OnlyAt c i (set ws i w)
set-OnlyAt c i [] w o = tt
set-OnlyAt c zero (v ∷ ws) w o = o
set-OnlyAt c (suc i) (v ∷ ws) w (h, o) = (h, set-OnlyAt c i ws w o)

pub at_address-set :
    (i : ℕ) (ws : List Worker) (v w : Worker)
    → at_address i ws ≡ some v
    → at_address i (set ws i w) ≡ some w
at_address-set i [] v w e = absurd (not_found v e)
at_address-set zero (u ∷ ws) v w e = refl
at_address-set (suc i) (u ∷ ws) v w e = at_address-set i ws v w e

-- A worker that holds a message of the client stands at the index.
pub held-OnlyAt :
    (c i j : ℕ) (ws : List Worker) (w : Worker)
    → OnlyAt c i ws
    → at_address j ws ≡ some w
    → held c w ≢ []
    → j ≡ i
held-OnlyAt c i j [] w o e n = absurd (not_found w e)
held-OnlyAt c zero zero (v ∷ ws) w o e n = refl
held-OnlyAt c zero (suc j) (v ∷ ws) w o e n = absurd (n (nothing_held j ws o e))
  where
    nothing_held :
        (j : ℕ) (ws : List Worker) → in_flight c ws ≡ [] → at_address j ws ≡ some w → held c w ≡ []
    nothing_held j [] o e = absurd (not_found w e)
    nothing_held zero (v ∷ ws) o e =
        ap (held c) (sym (some_eq v w e)) ∙ (append-nothing (held c v) (in_flight c ws) o).0
    nothing_held (suc j) (v ∷ ws) o e =
        nothing_held j ws (append-nothing (held c v) (in_flight c ws) o).1 e
held-OnlyAt c (suc i) zero (v ∷ ws) w (h, o) e n =
    absurd (n (ap (held c) (sym (some_eq v w e)) ∙ h))
held-OnlyAt c (suc i) (suc j) (v ∷ ws) w (h, o) e n = ap suc (held-OnlyAt c i j ws w o e n)

-- A worker that gets or gives back the message of another client changes nothing.
pub in_flight-set_other :
    (c j : ℕ) (ws : List Worker) (v w : Worker)
    → at_address j ws ≡ some v
    → held c v ≡ held c w
    → in_flight c (set ws j w) ≡ in_flight c ws
in_flight-set_other c j [] v w e h = refl
in_flight-set_other c zero (u ∷ ws) v w e h =
    ap (◌++ in_flight c ws) (sym h ∙ ap (held c) (sym (some_eq u v e)))
in_flight-set_other c (suc j) (u ∷ ws) v w e h =
    ap (held c u ++◌) (in_flight-set_other c j ws v w e h)

pub set_other-OnlyAt :
    (c i j : ℕ) (ws : List Worker) (v w : Worker)
    → at_address j ws ≡ some v
    → held c v ≡ held c w
    → OnlyAt c i ws
    → OnlyAt c i (set ws j w)
set_other-OnlyAt c i j [] v w e h o = tt
set_other-OnlyAt c zero zero (u ∷ ws) v w e h o = o
set_other-OnlyAt c zero (suc j) (u ∷ ws) v w e h o = in_flight-set_other c j ws v w e h ∙ o
set_other-OnlyAt c (suc i) zero (u ∷ ws) v w e h (k, o) =
    (sym h ∙ ap (held c) (sym (some_eq u v e)) ∙ k, o)
set_other-OnlyAt c (suc i) (suc j) (u ∷ ws) v w e h (k, o) =
    (k, set_other-OnlyAt c i j ws v w e h o)
