-- ===== src/Ps/Kill.antt =====
-- KillProcess: which threads end, and what a killed thread that was ready does next.
use micro_nt.Base.{
  ℕ, zero, suc, ◌<◌, ◌≡◌, refl, sym, ap, subst, ◌∙◌, ◌≢◌, inl, inr, Bool, true, false, not, ◌&&◌,
  List, [], ◌∷◌, length, get_elem?, none, some, ◌==◌, arith, update_self, update_ne, Option-cases,
}
use micro_nt.Sched.{Sched, is_terminated}
use micro_nt.Sched.Ring.{Off, Distinct}
use micro_nt.Sched.Sleep.Line.{Line}
use micro_nt.Ps.{Process, Ps, find_live, terminate_threads, wake_waiters, kill_process}
use micro_nt.Ps.Waiters.{
  release_all, release_all-state, release_all-others, wake_waiters-release_all,
}

-- A process that KillProcess looks for.
pub is_live : ℕ → (ℕ → Process) → ℕ → Bool
is_live pid process p = not (p == 0) && (process p).pid == pid && not (process p).exited

find_live-none :
    (pid : ℕ) (ps : List ℕ) (process : ℕ → Process) (i p : ℕ)
    → find_live pid ps process ≡ none
    → get_elem? ps i ≡ some p
    → is_live pid process p ≡ false
unfolding find_live is_live
find_live-none pid [] process i p e at = cc
find_live-none pid (q ∷ ps) process zero p e at = ground (arith)
find_live-none pid (q ∷ ps) process (suc i) p e at =
    ground (arith, find_live-none pid ps process i p)

find_live-some :
    (pid : ℕ) (ps : List ℕ) (process : ℕ → Process) (target : ℕ)
    → find_live pid ps process ≡ some target
    → is_live pid process target ≡ true
unfolding find_live is_live
find_live-some pid [] process target e = cc
find_live-some pid (q ∷ ps) process target e = ground (arith, find_live-some pid ps process target)

-- The threads that KillProcess ends are TERMINATED, and no other thread changes.
terminate_threads-keeps :
    (target : ℕ) (of : ℕ → ℕ) (ts : List ℕ) (s : Sched) (a : ℕ)
    → is_terminated (s.state a) ≡ true
    → is_terminated ((terminate_threads target of ts s).state a) ≡ true
unfolding terminate_threads
terminate_threads-keeps target of [] s a e = e
terminate_threads-keeps target of (t ∷ ts) s a e =
    terminate_threads-keeps target of ts _ a (ground (arith, e))

pub terminate_threads-ends :
    (target : ℕ) (of : ℕ → ℕ) (ts : List ℕ) (s : Sched) (i t : ℕ)
    → get_elem? ts i ≡ some t
    → t ≢ 0
    → of t ≡ target
    → is_terminated ((terminate_threads target of ts s).state t) ≡ true
unfolding terminate_threads
terminate_threads-ends target of [] s i t at nz own = cc
terminate_threads-ends target of (u ∷ ts) s zero t at nz own =
    let same : u ≡ t = ground (arith, at) in
    terminate_threads-keeps target of ts _ t (rw same (ground (arith, nz, own)))
terminate_threads-ends target of (u ∷ ts) s (suc i) t at nz own =
    terminate_threads-ends target of ts _ i t at nz own

terminate_threads-others :
    (target : ℕ) (of : ℕ → ℕ) (ts : List ℕ) (s : Sched) (a : ℕ)
    → of a ≢ target
    → (terminate_threads target of ts s).state a ≡ s.state a
unfolding terminate_threads
terminate_threads-others target of [] s a other = refl
terminate_threads-others target of (t ∷ ts) s a other =
    terminate_threads-others target of ts _ a other ∙ ground (arith, ap of, other)

pub terminate_threads-links :
    (target : ℕ) (of : ℕ → ℕ) (ts : List ℕ) (s : Sched)
    → let r = terminate_threads target of ts s in
      (r.links ≡ s.links) × (r.current ≡ s.current) × (r.active ≡ s.active)
unfolding terminate_threads
terminate_threads-links target of [] s = (refl, refl, refl)
terminate_threads-links target of (t ∷ ts) s =
    let (l, c, a) = terminate_threads-links target of ts _ in
    (l ∙ ground arith, c ∙ ground arith, a ∙ ground arith)

-- How KillProcess ends, with the waiters of each process.
pub data Kills (pid : ℕ) (s : Ps) (waiters : ℕ → List ℕ) : Bool × Ps → Type 0 where
  nobody :
      ((i p : ℕ) → get_elem? s.proc_reg i ≡ some p → is_live pid s.process p ≡ false)
      → Kills pid s waiters (false, s)
  killed :
      (target : ℕ) (q : Ps)
      → is_live pid s.process target ≡ true
      → (q.process target).exited ≡ true
      → (q.process target).thread_count ≡ 0
      → ((p : ℕ) → p ≢ target → q.process p ≡ s.process p)
      → ((i t : ℕ)
          → get_elem? s.thread_reg i ≡ some t
          → t ≢ 0
          → s.thread_process t ≡ target
          → is_terminated (q.sched.state t) ≡ true)
      → ((a : ℕ)
          → s.thread_process a ≢ target
          → Off a (waiters target)
          → q.sched.state a ≡ s.sched.state a)
      → Kills pid s waiters (true, q)

-- The list that the threads' WaitNext holds for each process.
pub record Waiting (fuel : ℕ) (s : Ps) (waiters : ℕ → List ℕ) : Type 0 where
  pub line : (p : ℕ) → Line s.sched.wait_next (s.process p).exit_waiters (waiters p)
  pub distinct : (p : ℕ) → Distinct (waiters p)
  pub enough : (p : ℕ) → length (waiters p) < fuel

terminate_threads-wait_next :
    (target : ℕ) (of : ℕ → ℕ) (ts : List ℕ) (s : Sched)
    → (terminate_threads target of ts s).wait_next ≡ s.wait_next
unfolding terminate_threads
terminate_threads-wait_next target of [] s = refl
terminate_threads-wait_next target of (t ∷ ts) s =
    terminate_threads-wait_next target of ts _ ∙ ground arith

-- If each process's exit_waiters lead over WaitNext to a list of distinct threads, fewer than the
-- fuel, KillProcess either finds no registered process with the PID that has not exited, and
-- changes nothing; or ends one: it has exited with no threads left, all its registered threads
-- are TERMINATED, no other process changes, and no thread of another process changes its state
-- unless it waited for this one.
pub kill_process-Kills :
    (fuel pid : ℕ) (s : Ps) (waiters : ℕ → List ℕ)
    → Waiting fuel s waiters
    → Kills pid s waiters (kill_process fuel pid s)
unfolding kill_process
kill_process-Kills fuel pid s waiters v = elim (Option-cases (find_live pid s.proc_reg s.process)) [
  | inl e ↦
      rw (e, kill_process) (nobody (λ i p at. find_live-none pid s.proc_reg s.process i p e at))
  | inr (target, e) ↦
      let ended : Sched = terminate_threads target s.thread_process s.thread_reg s.sched in
      let woken : wake_waiters fuel (s.process target).exit_waiters ended
          ≡ release_all (waiters target) ended =
        wake_waiters-release_all (waiters target) fuel (s.process target).exit_waiters ended
          (v.enough target)
          (subst (λ f. Line f (s.process target).exit_waiters (waiters target))
            (sym (terminate_threads-wait_next target s.thread_process s.thread_reg s.sched))
            (v.line target))
          (v.distinct target) in
      rw (e, kill_process)
        (killed target _ (find_live-some pid s.proc_reg s.process target e)
          (ap (λ p. p.exited) (update_self s.process target _))
          (ap (λ p. p.thread_count) (update_self s.process target _))
          (λ p ne. update_ne s.process target p _ ne)
          (λ i t at nz own.
            ap (λ q. is_terminated (q.state t)) woken
            ∙ release_all-state (waiters target) ended t
                (terminate_threads-ends target s.thread_process s.thread_reg s.sched i t at nz own))
          (λ a other off.
            ap (λ q. q.state a) woken
            ∙ release_all-others (waiters target) ended a off
            ∙ terminate_threads-others target s.thread_process s.thread_reg s.sched a other))
]
