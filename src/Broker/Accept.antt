-- ===== src/Broker/Accept.antt =====
-- The delays of the accept loop in `StartClientListening` of broker/broker.go, in milliseconds.
use thoth.Base.{ℕ, ◌*◌, ◌≤◌, inl, inr, arith, List, [], ◌∷◌, ltb, if◌then◌else◌, Bool-cases}

abbrev pub accept_min_sleep : ℕ
accept_min_sleep = 100

abbrev pub accept_max_sleep : ℕ
accept_max_sleep = 10000

-- What `l.Accept()` comes to: a connection, an error that is temporary, another error.
pub data AcceptResult : Type 0 where
  connected temporary failed : AcceptResult

-- `tmpDelay` and the times slept so far, the last one first.
pub record Acceptor : Type 0 where
  pub tmp_delay : ℕ
  pub slept : List ℕ

abbrev pub new_acceptor : Acceptor
new_acceptor = record { tmp_delay = 10 * accept_min_sleep; slept = [] }

-- One round of the loop.
unfoldable pub accept_round : AcceptResult → Acceptor → Acceptor
accept_round AcceptResult.temporary l = record {
  tmp_delay = if ltb accept_max_sleep (l.tmp_delay * 2) then accept_max_sleep else l.tmp_delay * 2;
  slept = l.tmp_delay ∷ l.slept;
}
accept_round AcceptResult.failed l = l
accept_round AcceptResult.connected l = record l { tmp_delay = accept_min_sleep }

unfoldable pub accept_rounds : List AcceptResult → Acceptor → Acceptor
accept_rounds [] l = l
accept_rounds (r ∷ rs) l = accept_rounds rs (accept_round r l)

abbrev pub IsDelay : ℕ → Type 0
IsDelay d = (accept_min_sleep ≤ d) × (d ≤ accept_max_sleep)

abbrev pub AreDelays : List ℕ → Type 0
AreDelays [] = Unit
AreDelays (d ∷ ds) = IsDelay d × AreDelays ds

abbrev pub IsAcceptor : Acceptor → Type 0
IsAcceptor l = IsDelay l.tmp_delay × AreDelays l.slept

accept_round-IsAcceptor :
    (r : AcceptResult) (l : Acceptor) → IsAcceptor l → IsAcceptor (accept_round r l)
unfolding accept_round
accept_round-IsAcceptor AcceptResult.temporary l (d, ds) = (doubled l.tmp_delay d, (d, ds))
  where
    doubled :
        (d : ℕ)
        → IsDelay d
        → IsDelay (if ltb accept_max_sleep (d * 2) then accept_max_sleep else d * 2)
    doubled d h = elim (Bool-cases (ltb accept_max_sleep (d * 2))) [
      | inl e ↦ rw e (omega arith, omega arith)
      | inr e ↦ rw e (omega (arith, h.0), ground arith)
    ]
accept_round-IsAcceptor AcceptResult.failed l v = v
accept_round-IsAcceptor AcceptResult.connected l (d, ds) = ((omega arith, omega arith), ds)

-- Whatever the calls of `Accept` come to, each sleep is between 100 milliseconds and 10 seconds, and so is
-- the next one, if that holds at the start, as it does in the code.
pub accept_rounds-IsAcceptor :
    (rs : List AcceptResult) (l : Acceptor) → IsAcceptor l → IsAcceptor (accept_rounds rs l)
unfolding accept_rounds
accept_rounds-IsAcceptor [] l v = v
accept_rounds-IsAcceptor (r ∷ rs) l v =
    accept_rounds-IsAcceptor rs (accept_round r l) (accept_round-IsAcceptor r l v)

pub new_acceptor-IsAcceptor : IsAcceptor new_acceptor
new_acceptor-IsAcceptor = ((omega arith, omega arith), tt)
