-- ===== src/Tests/ThreadingTests.antt =====
-- A pool of one worker: two submissions, the shutdown, and the steps that follow.
use ip_finder.Common.{ℕ, ◌+◌, ◌≤◌, ◌≡◌, ◌⊎◌, refl, inl, Bool, true, false, List, [], ◌∷◌, Option}
use ip_finder.Threading.{
  Worker, wants_lock, running, ThreadPool, World, new_world, submit, shutdown, locked, Work,
  takes_lock, Step, submits, shuts_down, Reach, at_start, after,
}
use ip_finder.Threading.Order.{IsOrdered, Reach-IsOrdered}
use ip_finder.Threading.Drain.{here, there, measure, Goes, AllExited, Reach-Goes}
use ip_finder.Threading.Shutdown.{IsDrained, shutdown-IsDrained}

abbrev pool_of : List ℕ → List (Worker ℕ) → Bool → ℕ → Bool → ThreadPool ℕ
pool_of tasks workers stopping notify_one notify_all = record {
  tasks = tasks;
  workers = workers;
  stopping = stopping;
  notify_one = notify_one;
  notify_all = notify_all;
}

abbrev world_of : ThreadPool ℕ → List ℕ → List ℕ → List ℕ → World ℕ
world_of pool accepted started finished = record {
  pool = pool;
  accepted = accepted;
  started = started;
  finished = finished;
}

abbrev submitted : World ℕ
submitted = world_of (pool_of (10 ∷ []) (wants_lock ∷ []) false 1 false) (10 ∷ []) [] []

abbrev stopped : World ℕ
stopped = world_of (pool_of (10 ∷ []) (wants_lock ∷ []) true 1 true) (10 ∷ []) [] []

abbrev busy : World ℕ
busy = world_of (pool_of [] (running 10 ∷ []) true 1 true) (10 ∷ []) (10 ∷ []) []

submits_10 : Step (new_world 1) submitted
unfolding new_world submit
submits_10 = submits 10 (pool_of (10 ∷ []) (wants_lock ∷ []) false 1 false) refl

stops : Step submitted stopped
unfolding shutdown
stops = shuts_down

takes_10 : Work stopped busy
unfolding locked
takes_10 = takes_lock [] [] refl

stopped-Reach : Reach 1 stopped
stopped-Reach = after (after at_start submits_10) stops

late : submit 11 stopped.pool ≡ Option.none
unfolding submit
late = refl

Reach-IsOrdered_example : IsOrdered stopped
Reach-IsOrdered_example = Reach-IsOrdered stopped-Reach

Reach-Goes_example : Goes stopped ⊎ AllExited stopped
Reach-Goes_example = Reach-Goes stopped-Reach (inl refl)

shutdown-IsDrained_example : (1 + measure busy ≤ measure stopped) × (Goes busy ⊎ IsDrained busy)
shutdown-IsDrained_example = shutdown-IsDrained stopped-Reach refl (there here takes_10)
