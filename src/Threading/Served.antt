-- ===== src/Threading/Served.antt =====
-- A pool that works off its queue, and a pool whose workers are joined, as steps of the workers.
use mathlib.Core.List.{append_assoc, append-nil}
use ip_finder.Common.{
  ℕ, zero, suc, ◌≡◌, refl, sym, ap, subst, ◌∙◌, any, Bool, true, false, List, [], ◌∷◌, ◌++◌, map,
  replicate, max, arith,
}
use ip_finder.Threading.{
  Worker, wants_lock, running, exited, ThreadPool, World, thread_pool, shutdown, join_all,
  leave_worker, worker_turn, wake, is_asleep, locked, Work, takes_lock, finishes, wakes_nobody,
  wakes_all,
}
use ip_finder.Threading.Drain.{Run, here, there}

awake_workers : (A : Type 0) (n : ℕ) → any (is_asleep {A = A}) (replicate n wants_lock) ≡ false
awake_workers A zero = refl
awake_workers A (suc n) = awake_workers A n

some_worker : (n : ℕ) → (m : ℕ) × (max 1 n ≡ suc m)
some_worker zero = (0, refl)
some_worker (suc n) = (n, omega arith)

module _ {A : Type 0} where
  abbrev world : List A → List (Worker A) → Bool → ℕ → List A → List A → List A → World A
  world tasks workers stopping due accepted started finished = record {
    pool = record {
      tasks = tasks;
      workers = workers;
      stopping = stopping;
      notify_one = due;
      notify_all = false;
    };
    accepted = accepted;
    started = started;
    finished = finished;
  }

  -- Some run of the workers to a world with the pool.
  abbrev pub Leads : World A → ThreadPool A → List A → Type 0
  Leads w pool started =
      (k : ℕ) × (v : World A) × Run w k v × (v.pool ≡ pool) × (v.started ≡ started)

  takes-first :
      (t : A) (ts : List A) (rest : List (Worker A)) (due : ℕ) (acc st fin : List A)
      → Work
          (world (t ∷ ts) (wants_lock ∷ rest) false due acc st fin)
          (world ts (running t ∷ rest) false due acc (st ++ (t ∷ [])) fin)
  unfolding locked worker_turn
  takes-first t ts rest due acc st fin = takes_lock [] rest refl

  runs-first :
      (t : A) (ts : List A) (rest : List (Worker A)) (due : ℕ) (acc st fin : List A)
      → Work
          (world ts (running t ∷ rest) false due acc st fin)
          (world ts (wants_lock ∷ rest) false due acc st (t ∷ fin))
  runs-first t ts rest due acc st fin = finishes [] rest t refl

  notified :
      (w0 : World A) (due k : ℕ) (ws : List (Worker A)) (acc st fin : List A)
      → any is_asleep ws ≡ false
      → Run w0 k (world [] ws false due acc st fin)
      → Leads w0 (world [] ws false 0 acc st fin).pool st
  notified w0 zero k ws acc st fin awake run = (k, _, run, refl, refl)
  notified w0 (suc due) k ws acc st fin awake run =
      notified w0 due (suc k) ws acc st fin awake (there run (wakes_nobody due awake refl))

  works_off :
      (w0 : World A) (ts : List A) (rest : List (Worker A)) (due k : ℕ) (acc st fin : List A)
      → any is_asleep (wants_lock ∷ rest) ≡ false
      → Run w0 k (world ts (wants_lock ∷ rest) false due acc st fin)
      → Leads w0 (world [] (wants_lock ∷ rest) false 0 acc st fin).pool (st ++ ts)
  works_off w0 [] rest due k acc st fin awake run =
      let (n, v, more, p, s) = notified w0 due k (wants_lock ∷ rest) acc st fin awake run in
      (n, v, more, p, s ∙ sym (append-nil st))
  works_off w0 (t ∷ ts) rest due k acc st fin awake run =
      let (n, v, more, p, s) =
        works_off w0 ts rest due (suc (suc k)) acc (st ++ (t ∷ [])) (t ∷ fin) awake (
          there (there run (takes-first t ts rest due acc st fin))
            (runs-first t ts rest due acc (st ++ (t ∷ [])) fin)) in
      (n, v, more, p, s ∙ append_assoc st (t ∷ []) ts)

  -- A fresh pool with tasks in its queue can start them in order and work them all off.
  pub thread_pool-Leads :
      (n : ℕ) (tasks acc : List A) (due : ℕ)
      → Leads
          (record {
            pool = record (thread_pool n) { tasks = tasks; notify_one = due };
            accepted = acc;
            started = [];
            finished = [];
          })
          (thread_pool n)
          tasks
  unfolding thread_pool
  thread_pool-Leads n tasks acc due =
      let (m, e) = some_worker n in
      rw e (works_off _ tasks (replicate m wants_lock) due 0 acc [] [] (awake_workers A m) here)

  -- The shutdown of a pool of waiting workers can end with all of them joined.
  leaves :
      (w0 : World A) (n k : ℕ) (front : List (Worker A)) (due : ℕ) (acc st fin : List A)
      → Run w0 k (world [] (front ++ replicate n wants_lock) true due acc st fin)
      → (j : ℕ) × Run w0 j (world [] (front ++ replicate n exited) true due acc st fin)
  unfolding locked worker_turn
  leaves w0 zero k front due acc st fin run = (k, run)
  leaves w0 (suc n) k front due acc st fin run =
      let one = append_assoc front (exited ∷ []) (replicate n wants_lock) in
      let all = append_assoc front (exited ∷ []) (replicate n exited) in
      let next =
        subst
          (λ s.
            Run w0 (suc k)
              (world [] (front ++ (exited ∷ replicate n wants_lock)) true due acc s fin))
          (append-nil st) (there run (takes_lock front (replicate n wants_lock) refl)) in
      let (j, ended) =
        leaves w0 n (suc k) (front ++ (exited ∷ [])) due acc st fin
          (subst (λ ws. Run w0 (suc k) (world [] ws true due acc st fin)) (sym one) next) in
      (j, subst (λ ws. Run w0 j (world [] ws true due acc st fin)) all ended)

  wake-waiting : (n : ℕ) → map (wake {A = A}) (replicate n wants_lock) ≡ replicate n wants_lock
  wake-waiting zero = refl
  wake-waiting (suc n) = ap (◌∷◌ wants_lock) (wake-waiting n)

  leave_worker-waiting :
      (n : ℕ) → map (leave_worker {A = A}) (replicate n wants_lock) ≡ replicate n exited
  leave_worker-waiting zero = refl
  leave_worker-waiting (suc n) = ap (◌∷◌ exited) (leave_worker-waiting n)

  -- The shutdown of a fresh pool that is idle can end with all its workers joined.
  pub join_all-Leads :
      (n : ℕ) (acc st fin : List A)
      → Leads
          (record { pool = shutdown (thread_pool n); accepted = acc; started = st; finished = fin })
          (join_all (shutdown (thread_pool n)))
          st
  unfolding shutdown thread_pool join_all
  join_all-Leads n acc st fin =
      let m = max 1 n in
      let w0 : World A = record {
        pool = shutdown (thread_pool n);
        accepted = acc;
        started = st;
        finished = fin;
      } in
      let woken : Run w0 1 (world [] (map wake (replicate m wants_lock)) true 0 acc st fin) =
        there here (wakes_all refl) in
      let (j, run) =
        leaves w0 m 1 [] 0 acc st fin
          (subst (λ ws. Run w0 1 (world [] ws true 0 acc st fin)) (wake-waiting m) woken) in
      (
        j,
        _,
        run,
        ap (λ ws. (world [] ws true 0 acc st fin).pool) (sym (leave_worker-waiting m)),
        refl,
      )
