-- ===== src/Threading/Drain.antt =====
-- The shutdown: workers run until the queue is empty, and then all of them leave.
use ip_finder.Common.{
  ℕ, zero, suc, ◌+◌, ◌*◌, ◌≤◌, ◌<◌, length, any, is_empty, All, ◌≡◌, ◌⊎◌, refl, sym, ◌∙◌, ap, Bool,
  true, false, List, [], ◌∷◌, ◌++◌, map, arith, Bool-cases, inl, inr,
}
use ip_finder.Threading.{
  Worker, wants_lock, asleep, running, exited, World, worker_turn, wake, is_asleep, locked, Work,
  takes_lock, finishes, wakes_one, wakes_nobody, wakes_all, Reach,
}
use ip_finder.Threading.Awake.{is_exited, is_active, Reach-PoolAwake}
use ip_finder.Threading.Order.{held}

abbrev flag : Bool → ℕ → ℕ
flag true n = suc n
flag false n = 0

module _ {A : Type 0} where
  -- Any number of steps of the workers.
  pub data Run (w : World A) : ℕ → World A → Type 0 where
    here : Run w 0 w
    there : {k : ℕ} {v u : World A} → Run w k v → Work v u → Run w (suc k) u

  -- What a worker still has to do.
  abbrev effort : Worker A → ℕ
  effort wants_lock = 1
  effort asleep = 0
  effort (running task) = 2
  effort exited = 0

  abbrev efforts : List (Worker A) → ℕ
  efforts [] = 0
  efforts (s ∷ ws) = effort s + efforts ws

  unfoldable pub measure : World A → ℕ
  measure w =
      2 * length w.pool.tasks
      + efforts w.pool.workers
      + 2 * w.pool.notify_one
      + flag w.pool.notify_all (length w.pool.workers)

  efforts-put :
      (front : List (Worker A)) (s : Worker A) (back : List (Worker A))
      → efforts (front ++ (s ∷ back)) ≡ effort s + efforts (front ++ back)
  efforts-put [] s back = refl
  efforts-put (w ∷ front) s back = omega (arith, efforts-put front s back)

  length-put :
      (front : List (Worker A)) (s : Worker A) (back : List (Worker A))
      → length (front ++ (s ∷ back)) ≡ suc (length (front ++ back))
  length-put [] s back = refl
  length-put (w ∷ front) s back = ap suc (length-put front s back)

  flag-put :
      (b : Bool) (front : List (Worker A)) (old new : Worker A) (back ws : List (Worker A))
      → ws ≡ front ++ (old ∷ back)
      → flag b (length (front ++ (new ∷ back))) ≡ flag b (length ws)
  flag-put b front old new back ws e =
      ap (flag b) (length-put front new back ∙ sym (length-put front old back) ∙ ap length (sym e))

  efforts-wake : (ws : List (Worker A)) → efforts (map wake ws) ≤ efforts ws + length ws
  efforts-wake [] = omega arith
  efforts-wake (wants_lock ∷ ws) = omega (arith, efforts-wake ws)
  efforts-wake (asleep ∷ ws) = omega (arith, efforts-wake ws)
  efforts-wake (running t ∷ ws) = omega (arith, efforts-wake ws)
  efforts-wake (exited ∷ ws) = omega (arith, efforts-wake ws)

  turn-effort :
      (tasks : List A) (stopping : Bool)
      → effort (worker_turn tasks stopping).0 + 2 * length (worker_turn tasks stopping).1
        < 1 + 2 * length tasks
  unfolding worker_turn
  turn-effort [] true = omega arith
  turn-effort [] false = omega arith
  turn-effort (t ∷ ts) stopping = omega arith

  -- Every step of the workers uses up some of what there is to do.
  pub Work-measure : {w v : World A} → Work w v → measure v < measure w
  unfolding measure locked
  Work-measure {w} (takes_lock front back e) =
      let s = (worker_turn w.pool.tasks w.pool.stopping).0 in
      let same = flag-put w.pool.notify_all front wants_lock s back w.pool.workers e in
      omega (
        arith,
        same,
        ap efforts e,
        efforts-put front wants_lock back,
        efforts-put front s back,
        turn-effort w.pool.tasks w.pool.stopping,
      )
  Work-measure {w} (finishes front back t e) =
      let same = flag-put w.pool.notify_all front (running t) wants_lock back w.pool.workers e in
      omega (
        arith,
        same,
        ap efforts e,
        efforts-put front (running t) back,
        efforts-put front wants_lock back,
      )
  Work-measure {w} (wakes_one front back n e due) =
      let same = flag-put w.pool.notify_all front asleep wants_lock back w.pool.workers e in
      omega (
        arith,
        due,
        same,
        ap efforts e,
        efforts-put front asleep back,
        efforts-put front wants_lock back,
      )
  Work-measure {w} (wakes_nobody n nobody due) = omega (arith, due)
  Work-measure {w} (wakes_all due) = rw due (omega (arith, efforts-wake w.pool.workers))

  find :
      (p : Worker A → Bool) (ws : List (Worker A))
      → any p ws ≡ true
      → (front : List (Worker A)) × (s : Worker A) × (back : List (Worker A)) × (ws
          ≡ front ++ (s ∷ back))
        × (p s ≡ true)
  find p [] h = cc
  find p (s ∷ ws) h = elim (Bool-cases (p s)) [
    | inl first ↦ ([], s, ws, refl, first)
    | inr later ↦
        let (front, t, back, e, q) = find p ws (ground arith) in
        (s ∷ front, t, back, ap (◌∷◌ s) e, q)
  ]

  abbrev pub Goes : World A → Type 0
  Goes w = (v : World A) × Work w v

  active-Goes :
      (w : World A) (front : List (Worker A)) (s : Worker A) (back : List (Worker A))
      → w.pool.workers ≡ front ++ (s ∷ back)
      → is_active s ≡ true
      → Goes w
  active-Goes w front wants_lock back e h = (_, takes_lock front back e)
  active-Goes w front (running t) back e h = (_, finishes front back t e)
  active-Goes w front asleep back e h = cc
  active-Goes w front exited back e h = cc

  notify-Goes : (w : World A) (n : ℕ) → w.pool.notify_one ≡ suc n → Goes w
  notify-Goes w n due = elim (Bool-cases (any is_asleep w.pool.workers)) [
    | inl some_sleep ↦
        let (front, s, back, e, q) = find is_asleep w.pool.workers some_sleep in
        sleeper front s back e q
    | inr nobody ↦ (_, wakes_nobody n nobody due)
  ]
    where
      sleeper :
          (front : List (Worker A)) (s : Worker A) (back : List (Worker A))
          → w.pool.workers ≡ front ++ (s ∷ back)
          → is_asleep s ≡ true
          → Goes w
      sleeper front asleep back e q = (_, wakes_one front back n e due)
      sleeper front wants_lock back e q = cc
      sleeper front (running t) back e q = cc
      sleeper front exited back e q = cc

  abbrev pub AllExited : World A → Type 0
  AllExited w = All (λ s. s ≡ exited) w.pool.workers

  left_only :
      (ws : List (Worker A))
      → any is_active ws ≡ false
      → any is_asleep ws ≡ false
      → All (λ s. s ≡ exited) ws
  left_only [] a b = tt
  left_only (wants_lock ∷ ws) a b = cc
  left_only (running t ∷ ws) a b = cc
  left_only (asleep ∷ ws) a b = cc
  left_only (exited ∷ ws) a b = (refl, left_only ws a b)

  pub left-exited :
      (ws : List (Worker A))
      → is_empty ws ≡ false
      → All (λ s. s ≡ exited) ws
      → any is_exited ws ≡ true
  left-exited [] h k = cc
  left-exited (s ∷ ws) h (e, k) = rw e refl

  pub held-exited : (ws : List (Worker A)) → All (λ s. s ≡ exited) ws → held ws ≡ []
  held-exited [] k = refl
  held-exited (s ∷ ws) (e, k) = rw e (held-exited ws k)

  -- No deadlock: while a task waits in the queue or the pool shuts down, some worker or
  -- notification can make a step, or all workers have left.
  pub Reach-Goes :
      {n : ℕ} {w : World A}
      → Reach n w
      → (w.pool.stopping ≡ true) ⊎ (is_empty w.pool.tasks ≡ false)
      → Goes w ⊎ AllExited w
  Reach-Goes {w} r wanted = elim (Bool-cases (any is_active w.pool.workers)) [
    | inl act ↦
        let (front, s, back, e, q) = find is_active w.pool.workers act in
        inl (active-Goes w front s back e q)
    | inr idle ↦ by_notify idle w.pool.notify_one refl
  ]
    where
      by_notify :
          any is_active w.pool.workers ≡ false
          → (m : ℕ) → w.pool.notify_one ≡ m
          → Goes w ⊎ AllExited w
      by_notify idle (suc m) due = inl (notify-Goes w m due)
      by_notify idle zero due = elim wanted [
        | inl stops ↦ elim (Bool-cases w.pool.notify_all) [
          | inl due_all ↦ inl (_, wakes_all due_all)
          | inr done ↦
              inr (left_only w.pool.workers idle ((Reach-PoolAwake r).none_asleep stops done))
        ]
        | inr queued ↦ absurd (ground (arith, (Reach-PoolAwake r).attended queued due))
      ]
