-- ===== src/Threading/Awake.antt =====
-- Which workers are awake while tasks wait.
use ip_finder.Common.{
  ℕ, zero, suc, ◌-◌, if-cases, max, any, is_empty, replicate, ◌≡◌, refl, sym, ◌∙◌, ap, subst, Bool,
  true, false, ◌||◌, List, [], ◌∷◌, ◌++◌, map, some, arith, Bool-cases, inl, inr,
}
use ip_finder.Threading.{
  Worker, wants_lock, asleep, running, exited, ThreadPool, World, new_world, submit, worker_turn,
  shutdown, wake, is_asleep, locked, Work, takes_lock, finishes, wakes_one, wakes_nobody, wakes_all,
  Step, works, submits, shuts_down, wakes_alone, Reach, at_start, after,
}

module _ {A : Type 0} where
  abbrev pub is_exited : Worker A → Bool
  is_exited wants_lock = false
  is_exited asleep = false
  is_exited (running task) = false
  is_exited exited = true

  -- A worker that will come back for the lock by itself.
  abbrev pub is_active : Worker A → Bool
  is_active wants_lock = true
  is_active asleep = false
  is_active (running task) = true
  is_active exited = false

  pub record IsAwake (tasks : List A) (stopping : Bool) (workers : List (Worker A)) (due : ℕ)
      (due_all : Bool) : Type 0 where
    pub some_worker : is_empty workers ≡ false
    pub drained : any is_exited workers ≡ true → (stopping ≡ true) × (is_empty tasks ≡ true)
    pub attended : is_empty tasks ≡ false → due ≡ 0 → any is_active workers ≡ true
    pub none_asleep : stopping ≡ true → due_all ≡ false → any is_asleep workers ≡ false

  abbrev pub PoolAwake : ThreadPool A → Type 0
  PoolAwake p = IsAwake p.tasks p.stopping p.workers p.notify_one p.notify_all

  any-put :
      (p : Worker A → Bool) (front : List (Worker A)) (s : Worker A) (back : List (Worker A))
      → any p (front ++ (s ∷ back)) ≡ (p s || (any p front || any p back))
  any-put p [] s back = ground arith
  any-put p (w ∷ front) s back = ground (arith, any-put p front s back)

  not_empty-put :
      (front : List (Worker A)) (s : Worker A) (back : List (Worker A))
      → is_empty (front ++ (s ∷ back)) ≡ false
  not_empty-put [] s back = refl
  not_empty-put (w ∷ front) s back = refl

  append-not_empty : (ts : List A) (t : A) → is_empty (ts ++ (t ∷ [])) ≡ false
  append-not_empty [] t = refl
  append-not_empty (u ∷ ts) t = refl

  -- The wait of a worker that is asleep is over, whatever woke it.
  woken :
      (tasks : List A) (stopping : Bool) (front back : List (Worker A)) (due due' : ℕ)
      (due_all : Bool)
      → IsAwake tasks stopping (front ++ (asleep ∷ back)) due due_all
      → IsAwake tasks stopping (front ++ (wants_lock ∷ back)) due' due_all
  woken tasks stopping front back due due' due_all k = record {
    some_worker = not_empty-put front wants_lock back;
    drained = λ h.
        k.drained
          (any-put is_exited front asleep back ∙ sym (any-put is_exited front wants_lock back) ∙ h);
    attended = λ h e. any-put is_active front wants_lock back;
    none_asleep =
        λ h e. absurd (ground (arith, k.none_asleep h e, any-put is_asleep front asleep back));
  }

  turned :
      (tasks : List A) (stopping : Bool) (front back : List (Worker A)) (due : ℕ) (due_all : Bool)
      → IsAwake tasks stopping (front ++ (wants_lock ∷ back)) due due_all
      → IsAwake
          (worker_turn tasks stopping).1
          stopping
          (front ++ ((worker_turn tasks stopping).0 ∷ back))
          due
          due_all
  unfolding worker_turn
  turned [] false front back due due_all k = record {
    some_worker = not_empty-put front asleep back;
    drained = λ h.
        k.drained
          (any-put is_exited front wants_lock back ∙ sym (any-put is_exited front asleep back) ∙ h);
    attended = λ h e. cc;
    none_asleep = λ h e. cc;
  }
  turned [] true front back due due_all k = record {
    some_worker = not_empty-put front exited back;
    drained = λ h. (refl, refl);
    attended = λ h e. cc;
    none_asleep = λ h e.
        any-put is_asleep front exited back
        ∙ sym (any-put is_asleep front wants_lock back)
        ∙ k.none_asleep h e;
  }
  turned (t ∷ ts) stopping front back due due_all k = record {
    some_worker = not_empty-put front (running t) back;
    drained = λ h. absurd (
        ground (
          arith,
          k.drained (
              any-put is_exited front wants_lock back
              ∙ sym (any-put is_exited front (running t) back)
              ∙ h),
        ));
    attended = λ h e. any-put is_active front (running t) back;
    none_asleep = λ h e.
        any-put is_asleep front (running t) back
        ∙ sym (any-put is_asleep front wants_lock back)
        ∙ k.none_asleep h e;
  }

  finished_one :
      (tasks : List A) (stopping : Bool) (front back : List (Worker A)) (t : A) (due : ℕ)
      (due_all : Bool)
      → IsAwake tasks stopping (front ++ (running t ∷ back)) due due_all
      → IsAwake tasks stopping (front ++ (wants_lock ∷ back)) due due_all
  finished_one tasks stopping front back t due due_all k = record {
    some_worker = not_empty-put front wants_lock back;
    drained = λ h. k.drained (
        any-put is_exited front (running t) back
        ∙ sym (any-put is_exited front wants_lock back)
        ∙ h);
    attended = λ h e. any-put is_active front wants_lock back;
    none_asleep = λ h e.
        any-put is_asleep front wants_lock back
        ∙ sym (any-put is_asleep front (running t) back)
        ∙ k.none_asleep h e;
  }

  -- Workers that neither sleep nor have left are active.
  active_rest :
      (ws : List (Worker A))
      → is_empty ws ≡ false
      → any is_asleep ws ≡ false
      → any is_exited ws ≡ false
      → any is_active ws ≡ true
  active_rest [] h a e = cc
  active_rest (wants_lock ∷ ws) h a e = refl
  active_rest (running t ∷ ws) h a e = refl
  active_rest (asleep ∷ ws) h a e = cc
  active_rest (exited ∷ ws) h a e = cc

  wake-exited : (ws : List (Worker A)) → any is_exited (map wake ws) ≡ any is_exited ws
  wake-exited [] = refl
  wake-exited (wants_lock ∷ ws) = wake-exited ws
  wake-exited (asleep ∷ ws) = wake-exited ws
  wake-exited (running t ∷ ws) = wake-exited ws
  wake-exited (exited ∷ ws) = refl

  wake-asleep : (ws : List (Worker A)) → any is_asleep (map wake ws) ≡ false
  wake-asleep [] = refl
  wake-asleep (wants_lock ∷ ws) = wake-asleep ws
  wake-asleep (asleep ∷ ws) = wake-asleep ws
  wake-asleep (running t ∷ ws) = wake-asleep ws
  wake-asleep (exited ∷ ws) = wake-asleep ws

  wake-active :
      (ws : List (Worker A)) → any is_active ws ≡ true → any is_active (map wake ws) ≡ true
  wake-active [] h = h
  wake-active (wants_lock ∷ ws) h = refl
  wake-active (asleep ∷ ws) h = refl
  wake-active (running t ∷ ws) h = refl
  wake-active (exited ∷ ws) h = wake-active ws h

  wake-is_empty : (ws : List (Worker A)) → is_empty (map wake ws) ≡ is_empty ws
  wake-is_empty [] = refl
  wake-is_empty (s ∷ ws) = refl

  Work-PoolAwake : {w v : World A} → Work w v → PoolAwake w.pool → PoolAwake v.pool
  unfolding locked
  Work-PoolAwake {w} (takes_lock front back e) k =
      turned w.pool.tasks w.pool.stopping front back w.pool.notify_one w.pool.notify_all (
        subst (λ ws. IsAwake w.pool.tasks w.pool.stopping ws w.pool.notify_one w.pool.notify_all) e
          k)
  Work-PoolAwake {w} (finishes front back t e) k =
      finished_one w.pool.tasks w.pool.stopping front back t w.pool.notify_one w.pool.notify_all (
        subst (λ ws. IsAwake w.pool.tasks w.pool.stopping ws w.pool.notify_one w.pool.notify_all) e
          k)
  Work-PoolAwake {w} (wakes_one front back n e due) k =
      woken w.pool.tasks w.pool.stopping front back w.pool.notify_one n w.pool.notify_all (
        subst (λ ws. IsAwake w.pool.tasks w.pool.stopping ws w.pool.notify_one w.pool.notify_all) e
          k)
  Work-PoolAwake {w} (wakes_nobody n nobody due) k = record {
    some_worker = k.some_worker;
    drained = k.drained;
    attended = λ h z. elim (Bool-cases (any is_exited w.pool.workers)) [
      | inl left ↦ absurd (ground (arith, k.drained left))
      | inr stay ↦ active_rest w.pool.workers k.some_worker nobody stay
    ];
    none_asleep = k.none_asleep;
  }
  Work-PoolAwake {w} (wakes_all due) k = record {
    some_worker = wake-is_empty w.pool.workers ∙ k.some_worker;
    drained = λ h. k.drained (sym (wake-exited w.pool.workers) ∙ h);
    attended = λ h z. wake-active w.pool.workers (k.attended h z);
    none_asleep = λ h e. wake-asleep w.pool.workers;
  }

  submit-fields :
      (t : A) (p q : ThreadPool A)
      → submit t p ≡ some q
      → (p.stopping ≡ false)
        × (q.stopping ≡ false)
        × (q.tasks ≡ p.tasks ++ (t ∷ []))
        × (q.workers ≡ p.workers)
        × (q.notify_one ≡ suc p.notify_one)
  unfolding submit
  submit-fields t p q h = ground arith

  submit-PoolAwake : (t : A) (p q : ThreadPool A) → submit t p ≡ some q → PoolAwake p → PoolAwake q
  submit-PoolAwake t p q h k =
      let (open_before, open_after, tasks, workers, due) = submit-fields t p q h in
      record {
        some_worker = rw workers k.some_worker;
        drained = λ e. absurd (ground (arith, k.drained (ap (any is_exited) (sym workers) ∙ e)));
        attended = λ e z. absurd (omega (arith, due));
        none_asleep = λ e a. cc;
      }

  shutdown-PoolAwake : (p : ThreadPool A) → PoolAwake p → PoolAwake (shutdown p)
  unfolding shutdown
  shutdown-PoolAwake p k =
      if-cases PoolAwake p.stopping p (record p { stopping = true; notify_all = true }) (λ _. k)
        λ first. record {
          some_worker = k.some_worker;
          drained = λ e. absurd (ground (arith, k.drained e));
          attended = k.attended;
          none_asleep = λ e a. cc;
        }

  Step-PoolAwake : {w v : World A} → Step w v → PoolAwake w.pool → PoolAwake v.pool
  Step-PoolAwake (works s) k = Work-PoolAwake s k
  Step-PoolAwake {w} (submits t p e) k = submit-PoolAwake t w.pool p e k
  Step-PoolAwake {w} shuts_down k = shutdown-PoolAwake w.pool k
  Step-PoolAwake {w} (wakes_alone front back e) k =
      woken w.pool.tasks w.pool.stopping front back w.pool.notify_one w.pool.notify_one
        w.pool.notify_all
        (subst (λ ws. IsAwake w.pool.tasks w.pool.stopping ws w.pool.notify_one w.pool.notify_all) e
          k)

  any-replicate :
      (p : Worker A → Bool) (s : Worker A) (n : ℕ) → p s ≡ false → any p (replicate n s) ≡ false
  any-replicate p s zero h = refl
  any-replicate p s (suc n) h = ground (arith, any-replicate p s n h)

  start-IsAwake : (m : ℕ) → IsAwake [] false (replicate (suc m) wants_lock) 0 false
  start-IsAwake m = record {
    some_worker = refl;
    drained = λ e. absurd (ground (arith, any-replicate is_exited wants_lock m refl));
    attended = λ e z. refl;
    none_asleep = λ e a. cc;
  }

  new-PoolAwake : (n : ℕ) → PoolAwake (new_world n).pool
  unfolding new_world
  new-PoolAwake n =
      let e : suc (n - 1) ≡ max 1 n = omega arith in
      subst (λ k. IsAwake [] false (replicate k wants_lock) 0 false) e (start-IsAwake (n - 1))

  pub Reach-PoolAwake : {n : ℕ} {w : World A} → Reach n w → PoolAwake w.pool
  Reach-PoolAwake at_start = new-PoolAwake _
  Reach-PoolAwake (after r s) = Step-PoolAwake s (Reach-PoolAwake r)
