-- ===== src/Sched/Block.antt =====
-- A thread that gives up the processor until it is woken.
use micro_nt.Base.{
  ℕ, ◌<◌, ◌≡◌, ap, ◌∙◌, ◌≢◌, false, List, ◌∷◌, if◌then◌else◌, arith, update, update_ne,
}
use micro_nt.Sched.{Sched, ready, running, blocked, is_running}
use micro_nt.Sched.Queues.{Idle}
use micro_nt.Sched.Switch.{Inv, Switch, stays, runs, Idle-tail}

-- The thread waits: it is BLOCKED, in no queue, and another thread runs.
pub record Blocked (t : ℕ) (s : Sched) (qs : ℕ → List ℕ) : Type 0 where
  pub inv : Inv s qs
  pub idle : Idle t qs
  pub state : s.state t ≡ blocked
  pub other : t ≢ s.current

-- A thread that is not RUNNING and gives up the processor to another one is in no queue.
pub Switch-leaves :
    (s s' : Sched) (qs qs' : ℕ → List ℕ) (pri t : ℕ) (xs : List ℕ)
    → is_running (s.state s.current) ≡ false
    → Inv s qs
    → pri < 3
    → qs pri ≡ t ∷ xs
    → Switch s qs s' qs'
    → Idle s.current qs' × (s'.state s.current ≡ s.state s.current) × (s.current ≢ s'.current)
Switch-leaves s s' qs qs' pri t xs stopped v lt queue (stays all) =
    absurd (ground (arith, queue, all pri lt))
Switch-leaves s s' qs qs' pri t xs stopped v lt queue
      (runs k u ys s'' lk at higher current quantum state) =
    let (idle, ne) = Idle-tail s.current u qs k ys lk at v.idle in
    (
      rw stopped idle,
      ap (λ f. f s.current) state
          ∙ update_ne
              (if is_running (s.state s.current) then update s.state s.current ready else s.state) u
              s.current running ne
          ∙ ap (λ x. (if x then update s.state s.current ready else s.state) s.current) stopped,
      λ e. ne (e ∙ current),
    )

pub Switch-Blocked :
    (s s' : Sched) (qs qs' : ℕ → List ℕ) (pri t : ℕ) (xs : List ℕ)
    → s.state s.current ≡ blocked
    → Inv s qs
    → pri < 3
    → qs pri ≡ t ∷ xs
    → Switch s qs s' qs'
    → Inv s' qs'
    → Blocked s.current s' qs'
Switch-Blocked s s' qs qs' pri t xs b v lt queue switch v' =
    let (idle, state, other) =
      Switch-leaves s s' qs qs' pri t xs (ap is_running b) v lt queue switch in
    record { inv = v'; idle = idle; state = state ∙ b; other = other }
