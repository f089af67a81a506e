-- ===== src/Sched/Sleep/Line.antt =====
-- The list of sleepers as a list of threads.
use micro_nt.Base.{
  ℕ, ◌≡◌, refl, sym, subst, ◌≢◌, List, [], ◌∷◌, leb, if◌then◌else◌, update, update_ne,
}
use micro_nt.Sched.{Sched, add_thread}
use micro_nt.Sched.Ring.{Off}

-- The threads that a link leads to.
unfoldable pub Line : (ℕ → ℕ) → ℕ → List ℕ → Type 0
Line next h [] = h ≡ 0
Line next h (t ∷ ts) = (h ≡ t) × (t ≢ 0) × Line next (next t) ts

-- The sleepers whose time has not come, and those whose time has.
unfoldable pub still_asleep : ℕ → (ℕ → ℕ) → List ℕ → List ℕ
still_asleep now until [] = []
still_asleep now until (t ∷ ts) =
    let rest = still_asleep now until ts in if leb (until t) now then rest else t ∷ rest

unfoldable pub due : ℕ → (ℕ → ℕ) → List ℕ → List ℕ
due now until [] = []
due now until (t ∷ ts) = let rest = due now until ts in if leb (until t) now then t ∷ rest else rest

unfoldable pub add_all : List ℕ → Sched → Sched
add_all [] s = s
add_all (t ∷ ts) s = add_all ts (add_thread t s)

pub Line-update :
    (next : ℕ → ℕ) (h : ℕ) (ts : List ℕ) (a v : ℕ)
    → Off a ts
    → Line next h ts
    → Line (update next a v) h ts
unfolding Line Off
Line-update next h [] a v off line = line
Line-update next h (t ∷ ts) a v (ne, off) (at, some_thread, rest) =
    let same : update next a v t ≡ next t = update_ne next a t v (λ e. ne (sym e)) in
    (
      at,
      some_thread,
      subst (λ x. Line (update next a v) x ts) (sym same)
          (Line-update next (next t) ts a v off rest),
    )

pub Off-zero : (next : ℕ → ℕ) (h : ℕ) (ts : List ℕ) → Line next h ts → Off 0 ts
unfolding Line Off
Off-zero next h [] line = _
Off-zero next h (t ∷ ts) (at, some_thread, rest) =
    (λ e. some_thread (sym e), Off-zero next (next t) ts rest)

pub still_asleep-update :
    (now : ℕ) (until : ℕ → ℕ) (a v : ℕ) (ts : List ℕ)
    → Off a ts
    → (still_asleep now (update until a v) ts ≡ still_asleep now until ts)
      × (due now (update until a v) ts ≡ due now until ts)
unfolding still_asleep due Off
still_asleep-update now until a v [] off = (refl, refl)
still_asleep-update now until a v (t ∷ ts) (ne, off) =
    let same : update until a v t ≡ until t = update_ne until a t v (λ e. ne (sym e)) in
    let (s, d) = still_asleep-update now until a v ts off in rw (same, s, d) (refl, refl)
