-- ===== src/Threading/Order.antt =====
-- The order of the tasks, and where each of them is.
use mathlib.Core.List.{append_assoc, Perm, perm_middle, perm_append_comm}
use mathlib.Core.List.Perm
use ip_finder.Common.{
  ℕ, zero, suc, max, replicate, ◌≡◌, refl, sym, ◌∙◌, ap, subst, Bool, true, false, List, [], ◌∷◌,
  ◌++◌, map, some, arith,
}
use ip_finder.Threading.{
  Worker, wants_lock, asleep, running, exited, ThreadPool, World, new_world, submit, worker_turn,
  shutdown, wake, task_of, locked, Work, takes_lock, finishes, wakes_one, wakes_nobody, wakes_all,
  Step, works, submits, shuts_down, wakes_alone, Reach, at_start, after,
}

module _ {A : Type 0} where
  abbrev pub held : List (Worker A) → List A
  held [] = []
  held (w ∷ ws) = task_of w ++ held ws

  held-append : (front back : List (Worker A)) → held (front ++ back) ≡ held front ++ held back
  held-append [] back = refl
  held-append (w ∷ front) back =
      ap (◌++◌ (task_of w)) (held-append front back)
      ∙ sym (append_assoc (task_of w) (held front) (held back))

  held-replicate : (n : ℕ) → held (replicate n wants_lock) ≡ []
  held-replicate zero = refl
  held-replicate (suc n) = held-replicate n

  held-wake : (ws : List (Worker A)) → held (map wake ws) ≡ held ws
  held-wake [] = refl
  held-wake (wants_lock ∷ ws) = held-wake ws
  held-wake (asleep ∷ ws) = held-wake ws
  held-wake (running task ∷ ws) = ap (◌∷◌ task) (held-wake ws)
  held-wake (exited ∷ ws) = held-wake ws

  -- The queue keeps the order, and what was taken from it is held by a worker or finished.
  pub record IsOrdered (w : World A) : Type 0 where
    pub in_order : w.started ++ w.pool.tasks ≡ w.accepted
    pub in_hands : Perm w.started (held w.pool.workers ++ w.finished)

  turn-order :
      (tasks : List A) (stopping : Bool)
      → task_of (worker_turn tasks stopping).0 ++ (worker_turn tasks stopping).1 ≡ tasks
  unfolding worker_turn
  turn-order [] true = refl
  turn-order [] false = refl
  turn-order (t ∷ ts) stopping = refl

  new_world-IsOrdered : (n : ℕ) → IsOrdered (new_world n)
  unfolding new_world
  new_world-IsOrdered n = record {
    in_order = refl;
    in_hands = rw (held-replicate (max 1 n)) (Perm.refl []);
  }

  -- One worker's state is replaced by one that holds no task, like the old one.
  held-same :
      (front back : List (Worker A)) (old new : Worker A) (ws : List (Worker A))
      → ws ≡ front ++ (old ∷ back)
      → task_of old ≡ task_of new
      → held (front ++ (new ∷ back)) ≡ held ws
  held-same front back old new ws e t =
      held-append front (new ∷ back)
      ∙ ap (λ u. held front ++ (u ++ held back)) (sym t)
      ∙ sym (held-append front (old ∷ back))
      ∙ ap held (sym e)

  out_of :
      (front gained back rest : List A)
      → Perm ((front ++ (gained ++ back)) ++ rest) (gained ++ ((front ++ back) ++ rest))
  out_of front gained back rest =
      subst (λ u. Perm ((front ++ (gained ++ back)) ++ rest) u)
        (append_assoc gained (front ++ back) rest)
        (Perm.append_right rest (
          subst (λ u. Perm (front ++ (gained ++ back)) u) (append_assoc gained front back)
            (subst (λ u. Perm u ((gained ++ front) ++ back)) (append_assoc front gained back)
              (Perm.append_right back (perm_append_comm front gained)))))

  put_in :
      (xs front gained back rest : List A)
      → Perm xs ((front ++ back) ++ rest)
      → Perm (xs ++ gained) ((front ++ (gained ++ back)) ++ rest)
  put_in xs front gained back rest p =
      Perm.trans (perm_append_comm xs gained)
        (Perm.trans (Perm.append_left gained p) (Perm.symm (out_of front gained back rest)))

  Work-IsOrdered : {w v : World A} → Work w v → IsOrdered w → IsOrdered v
  unfolding locked
  Work-IsOrdered {w} (takes_lock front back e) k = record {
    in_order =
        append_assoc w.started _ _
        ∙ ap (◌++◌ w.started) (turn-order w.pool.tasks w.pool.stopping)
        ∙ k.in_order;
    in_hands = rw (held-append front ((worker_turn w.pool.tasks w.pool.stopping).0 ∷ back)) (
        put_in w.started (held front) (task_of (worker_turn w.pool.tasks w.pool.stopping).0)
          (held back) w.finished
          (subst (λ u. Perm w.started (u ++ w.finished))
            (ap held e ∙ held-append front (wants_lock ∷ back)) k.in_hands));
  }
  Work-IsOrdered {w} (finishes front back task e) k = record {
    in_order = k.in_order;
    in_hands = rw (held-append front (wants_lock ∷ back)) (
        Perm.trans
          (subst (λ u. Perm w.started (u ++ w.finished))
            (ap held e ∙ held-append front (running task ∷ back)) k.in_hands)
          (Perm.trans (out_of (held front) (task ∷ []) (held back) w.finished)
            (Perm.symm (perm_middle (held front ++ held back) w.finished))));
  }
  Work-IsOrdered {w} (wakes_one front back n e due) k = record {
    in_order = k.in_order;
    in_hands = rw (held-same front back asleep wants_lock w.pool.workers e refl) k.in_hands;
  }
  Work-IsOrdered {w} (wakes_nobody n nobody due) k = record {
    in_order = k.in_order;
    in_hands = k.in_hands;
  }
  Work-IsOrdered {w} (wakes_all due) k = record {
    in_order = k.in_order;
    in_hands = rw (held-wake w.pool.workers) k.in_hands;
  }

  submit-Ordered :
      (t : A) (p q : ThreadPool A)
      → submit t p ≡ some q
      → (q.tasks ≡ p.tasks ++ (t ∷ [])) × (q.workers ≡ p.workers)
  unfolding submit
  submit-Ordered t p q h = ground arith

  shutdown-Ordered :
      (p : ThreadPool A) → ((shutdown p).tasks ≡ p.tasks) × ((shutdown p).workers ≡ p.workers)
  unfolding shutdown
  shutdown-Ordered p = ground arith

  Step-IsOrdered : {w v : World A} → Step w v → IsOrdered w → IsOrdered v
  Step-IsOrdered (works k) o = Work-IsOrdered k o
  Step-IsOrdered {w} (submits t p e) o =
      let (tasks, workers) = submit-Ordered t w.pool p e in
      record {
        in_order = rw tasks (
            sym (append_assoc w.started w.pool.tasks (t ∷ []))
            ∙ ap (λ u. u ++ (t ∷ [])) o.in_order);
        in_hands = rw workers o.in_hands;
      }
  Step-IsOrdered {w} shuts_down o =
      let (tasks, workers) = shutdown-Ordered w.pool in
      record { in_order = rw tasks o.in_order; in_hands = rw workers o.in_hands }
  Step-IsOrdered {w} (wakes_alone front back e) o = record {
    in_order = o.in_order;
    in_hands = rw (held-same front back asleep wants_lock w.pool.workers e refl) o.in_hands;
  }

  -- In every state that is reached, however the threads interleave: the tasks taken so far and the
  -- queue are the accepted tasks in the order of their submission, and the tasks taken so far are
  -- those that a worker is running and the finished ones, each once.
  pub Reach-IsOrdered : {n : ℕ} {w : World A} → Reach n w → IsOrdered w
  Reach-IsOrdered at_start = new_world-IsOrdered _
  Reach-IsOrdered (after r s) = Step-IsOrdered s (Reach-IsOrdered r)
