-- ===== src/Threading/Shutdown.antt =====
-- What `shutdown` has done when all workers are joined.
use mathlib.Core.List.{append-nil, Perm}
use ip_finder.Common.{
  ℕ, ◌+◌, ◌≤◌, is_empty, ◌≡◌, ◌⊎◌, refl, sym, ◌∙◌, ap, subst, true, List, [], ◌∷◌, ◌++◌, arith, inl,
  inr,
}
use ip_finder.Threading.{
  World, locked, Work, takes_lock, finishes, wakes_one, wakes_nobody, wakes_all, works, Reach,
  after,
}
use ip_finder.Threading.Awake.{Reach-PoolAwake}
use ip_finder.Threading.Drain.{
  Run, here, there, measure, Work-measure, Goes, AllExited, left-exited, held-exited, Reach-Goes,
}
use ip_finder.Threading.Order.{Reach-IsOrdered}

module _ {A : Type 0} where
  Run-Reach : {n : ℕ} {w : World A} {k : ℕ} {v : World A} → Reach n w → Run w k v → Reach n v
  Run-Reach r here = r
  Run-Reach r (there run s) = after (Run-Reach r run) (works s)

  Run-measure : {w : World A} {k : ℕ} {v : World A} → Run w k v → k + measure v ≤ measure w
  Run-measure here = omega arith
  Run-measure (there run s) = omega (arith, Run-measure run, Work-measure s)

  Work-stopping :
      {w v : World A} → Work w v → (v.pool.stopping ≡ w.pool.stopping) × (v.accepted ≡ w.accepted)
  unfolding locked
  Work-stopping (takes_lock front back e) = (refl, refl)
  Work-stopping (finishes front back t e) = (refl, refl)
  Work-stopping (wakes_one front back n e due) = (refl, refl)
  Work-stopping (wakes_nobody n nobody due) = (refl, refl)
  Work-stopping (wakes_all due) = (refl, refl)

  Run-stopping :
      {w : World A} {k : ℕ} {v : World A}
      → Run w k v
      → (v.pool.stopping ≡ w.pool.stopping) × (v.accepted ≡ w.accepted)
  Run-stopping here = (refl, refl)
  Run-stopping (there run s) =
      let (a, b) = Work-stopping s in let (c, d) = Run-stopping run in (a ∙ c, b ∙ d)

  -- All workers have left, the queue is empty, and each accepted task has been run once.
  abbrev pub IsDrained : World A → Type 0
  IsDrained w = AllExited w × (w.pool.tasks ≡ []) × Perm w.accepted w.finished

  is_empty-nil : (ts : List A) → is_empty ts ≡ true → ts ≡ []
  is_empty-nil [] h = refl
  is_empty-nil (t ∷ ts) h = cc

  AllExited-IsDrained : {n : ℕ} {w : World A} → Reach n w → AllExited w → IsDrained w
  AllExited-IsDrained {w} r all =
      let k = Reach-PoolAwake r in
      let o = Reach-IsOrdered r in
      let none_left =
        is_empty-nil w.pool.tasks (k.drained (left-exited w.pool.workers k.some_worker all)).1 in
      let queue_done : w.accepted ≡ w.started =
        sym o.in_order ∙ ap (◌++◌ w.started) none_left ∙ append-nil w.started in
      (
        all,
        none_left,
        rw queue_done (
            subst (λ ts. Perm w.started (ts ++ w.finished)) (held-exited w.pool.workers all)
              o.in_hands),
      )

  -- After the shutdown has begun, however the workers are scheduled: their steps are bounded in
  -- number, and they can go on until all of them have left, when the queue is empty and each
  -- accepted task has been run exactly once.
  pub shutdown-IsDrained :
      {n k : ℕ} {w v : World A}
      → Reach n w
      → w.pool.stopping ≡ true
      → Run w k v
      → (k + measure v ≤ measure w) × (Goes v ⊎ IsDrained v)
  shutdown-IsDrained {v} r stops run =
      let rv = Run-Reach r run in
      (
        Run-measure run,
        elim (Reach-Goes rv (inl ((Run-stopping run).0 ∙ stops))) [
          | inl go ↦ inl go
          | inr all ↦ inr (AllExited-IsDrained rv all)
        ],
      )
