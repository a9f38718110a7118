-- ===== src/Pool.antt =====
-- `WorkerPool` of pool/pool.go: which worker gets a task, and in which order. `fnv1a.HashString64` is
-- a parameter. A channel is unbuffered and its worker runs a task before it takes the next one, so
-- a worker is the list of the tasks that were sent to it, in the order in which it runs them.
use thoth.Base.{
  ℤ, pos, negsuc, ℕ, zero, suc, ◌%◌, ◌<◌, ◌≡◌, ◌≢◌, refl, sym, subst, ap, ◌∙◌, inl, inr, arith,
  true, false, Option, none, some, List, [], ◌∷◌, ◌++◌, append-nil, append_assoc, Bytes, ◌==◌,
  if◌then◌else◌, Bool-cases,
}

-- A task by a number.
pub record WorkerPool : Type 0 where
  pub max_workers : ℕ
  pub task_queue : List (List ℕ)

-- `if maxWorkers < 1 { maxWorkers = 1 }`
abbrev pub at_least_one : ℤ → ℕ
at_least_one (pos zero) = 1
at_least_one (pos (suc n)) = suc n
at_least_one (negsuc n) = 1

-- The loop of `dispatch`: a worker without tasks for each index.
abbrev pub dispatch : ℕ → List (List ℕ)
dispatch zero = []
dispatch (suc n) = [] ∷ dispatch n

abbrev pub new : ℤ → WorkerPool
new max_workers = record {
  max_workers = at_least_one max_workers;
  task_queue = dispatch (at_least_one max_workers);
}

-- `p.taskQueue[idx] <- task`; out of range there is nothing to send to.
unfoldable pub send : ℕ → ℕ → List (List ℕ) → List (List ℕ)
send idx task [] = []
send zero task (q ∷ qs) = (q ++ task ∷ []) ∷ qs
send (suc idx) task (q ∷ qs) = q ∷ send idx task qs

-- A nil task is dropped.
unfoldable pub submit : (Bytes → ℕ) → Bytes → Option ℕ → WorkerPool → WorkerPool
submit hash uid none p = p
submit hash uid (some task) p = record p {
  task_queue = send (hash uid % p.max_workers) task p.task_queue;
}

abbrev pub submit_all : (Bytes → ℕ) → List (Bytes × Option ℕ) → WorkerPool → WorkerPool
submit_all hash [] p = p
submit_all hash ((uid, task) ∷ ss) p = submit_all hash ss (submit hash uid task p)

-- The tasks of a worker.
abbrev pub queue : ℕ → List (List ℕ) → Option (List ℕ)
queue i [] = none
queue zero (q ∷ qs) = some q
queue (suc i) (q ∷ qs) = queue i qs

-- The tasks among those submitted whose hash leads to worker i of m, in their order.
abbrev pub tasks_of : (Bytes → ℕ) → ℕ → ℕ → List (Bytes × Option ℕ) → List ℕ
tasks_of hash m i [] = []
tasks_of hash m i ((uid, none) ∷ ss) = tasks_of hash m i ss
tasks_of hash m i ((uid, some task) ∷ ss) =
    if (hash uid % m) == i then task ∷ tasks_of hash m i ss else tasks_of hash m i ss

queue-dispatch : (n i : ℕ) → i < n → queue i (dispatch n) ≡ some []
queue-dispatch zero i l = absurd (omega arith)
queue-dispatch (suc n) zero l = refl
queue-dispatch (suc n) (suc i) l = queue-dispatch n i (omega arith)

queue-send_self :
    (i task : ℕ) (qs : List (List ℕ)) (q : List ℕ)
    → queue i qs ≡ some q
    → queue i (send i task qs) ≡ some (q ++ task ∷ [])
unfolding send
queue-send_self i task [] q h = cc
queue-send_self zero task (r ∷ qs) q h = cc
queue-send_self (suc i) task (r ∷ qs) q h = queue-send_self i task qs q h

queue-send_ne : (i j task : ℕ) (qs : List (List ℕ)) → j ≢ i → queue i (send j task qs) ≡ queue i qs
unfolding send
queue-send_ne i j task [] n = refl
queue-send_ne zero zero task (r ∷ qs) n = absurd (n refl)
queue-send_ne (suc i) zero task (r ∷ qs) n = refl
queue-send_ne zero (suc j) task (r ∷ qs) n = refl
queue-send_ne (suc i) (suc j) task (r ∷ qs) n = queue-send_ne i j task qs (omega arith)

equal_numbers : (a b : ℕ) → (a == b) ≡ true → a ≡ b
equal_numbers a b h = ground arith

unequal_numbers : (a b : ℕ) → (a == b) ≡ false → a ≢ b
unequal_numbers a b h = ground arith

queue-submit_all :
    (hash : Bytes → ℕ) (i : ℕ) (ss : List (Bytes × Option ℕ)) (p : WorkerPool) (q : List ℕ)
    → queue i p.task_queue ≡ some q
    → queue i (submit_all hash ss p).task_queue ≡ some (q ++ tasks_of hash p.max_workers i ss)
unfolding submit
queue-submit_all hash i [] p q h = h ∙ ap some (sym (append-nil q))
queue-submit_all hash i ((uid, none) ∷ ss) p q h = queue-submit_all hash i ss p q h
queue-submit_all hash i ((uid, some task) ∷ ss) p q h =
    elim (Bool-cases ((hash uid % p.max_workers) == i)) [
      | inl e ↦ rw e (
          queue-submit_all hash i ss (submit hash uid (some task) p) (q ++ task ∷ []) (
            subst (λ j. queue i (send j task p.task_queue) ≡ some (q ++ task ∷ []))
              (sym (equal_numbers (hash uid % p.max_workers) i e))
              (queue-send_self i task p.task_queue q h))
          ∙ ap some (append_assoc q (task ∷ []) (tasks_of hash p.max_workers i ss)))
      | inr e ↦ rw e (
          queue-submit_all hash i ss (submit hash uid (some task) p) q (
            queue-send_ne i (hash uid % p.max_workers) task p.task_queue
              (unequal_numbers (hash uid % p.max_workers) i e)
            ∙ h))
    ]

at_least_one_positive : (w : ℤ) → 0 < at_least_one w
at_least_one_positive (pos zero) = omega arith
at_least_one_positive (pos (suc n)) = omega arith
at_least_one_positive (negsuc n) = omega arith

mod_lt : (a m : ℕ) → 0 < m → a % m < m
mod_lt a m l = omega arith

-- In a pool of any size asked for, after any submissions, the worker that a client's hash leads to
-- is there, and runs exactly the submitted tasks of the clients whose hash leads to it, in the order
-- in which they were submitted.
pub submit_all-tasks_of :
    (hash : Bytes → ℕ) (w : ℤ) (uid : Bytes) (ss : List (Bytes × Option ℕ))
    → let m = (new w).max_workers in
      (hash uid % m < m)
      × (queue (hash uid % m) (submit_all hash ss (new w)).task_queue
          ≡ some (tasks_of hash m (hash uid % m) ss))
submit_all-tasks_of hash w uid ss = (
  mod_lt (hash uid) (at_least_one w) (at_least_one_positive w),
  queue-submit_all hash (hash uid % at_least_one w) ss (new w) [] (
      queue-dispatch (at_least_one w) (hash uid % at_least_one w)
        (mod_lt (hash uid) (at_least_one w) (at_least_one_positive w))),
)
