-- ===== src/Syscall/Wait/Fifo.antt =====
-- The threads that wait for a semaphore or a mutant, as a list: first in, first out.
use micro_nt.Base.{
  ℕ, zero, suc, ◌-◌, ◌≡◌, refl, sym, ap, subst, ◌∙◌, ◌≢◌, List, [], ◌∷◌, ◌++◌, length, take, drop,
  ◌==◌, true, false, arith, update, update_self, update_ne,
}
use micro_nt.Sched.{Sched}
use micro_nt.Sched.Ring.{Off, Distinct}
use micro_nt.Sched.Queues.{Off-append}
use micro_nt.Sched.Sleep.Line.{Line, Line-update}
use micro_nt.Ps.Waiters.{release, release_all, release-wait_next}
use micro_nt.Syscall.Wait.{Waiting, enqueue, dequeue, wake_first}

unfoldable pub last_of : ℕ → List ℕ → ℕ
last_of t [] = t
last_of t (x ∷ xs) = last_of x xs

-- The links lead from the head to the tail over the threads.
pub record Holds (next : ℕ → ℕ) (w : Waiting) (ws : List ℕ) : Type 0 where
  pub line : Line next w.head ws
  pub tail : w.tail ≡ last_of 0 ws
  pub distinct : Distinct ws

ne-last_of : (a x : ℕ) (xs : List ℕ) → Off a (x ∷ xs) → a ≢ last_of x xs
unfolding last_of Off
ne-last_of a x [] (ne, off) = ne
ne-last_of a x (y ∷ ys) (ne, off) = ne-last_of a y ys off

last_of-append : (x t : ℕ) (xs : List ℕ) → last_of x (xs ++ t ∷ []) ≡ t
unfolding last_of
last_of-append x t [] = refl
last_of-append x t (y ∷ ys) = last_of-append y t ys

last_of-ne_zero : (next : ℕ → ℕ) (h x : ℕ) (xs : List ℕ) → Line next h (x ∷ xs) → last_of x xs ≢ 0
unfolding last_of Line
last_of-ne_zero next h x [] (at, nz, end) = nz
last_of-ne_zero next h x (y ∷ ys) (at, nz, more) = last_of-ne_zero next (next x) y ys more

Distinct-snoc : (t : ℕ) (ws : List ℕ) → Distinct ws → Off t ws → Distinct (ws ++ t ∷ [])
unfolding Distinct Off
Distinct-snoc t [] d off = (_, _)
Distinct-snoc t (w ∷ ws) (here, d) (ne, off) =
    (Off-append w t ws here (λ e. ne (sym e)), Distinct-snoc t ws d off)

-- The last thread links to one more.
Line-link :
    (next : ℕ → ℕ) (h x t : ℕ) (xs : List ℕ)
    → t ≢ 0
    → Off t (x ∷ xs)
    → Distinct (x ∷ xs)
    → Line next h (x ∷ xs)
    → Line (update (update next t 0) (last_of x xs) t) h (x ∷ (xs ++ t ∷ []))
unfolding last_of Line Off Distinct
Line-link next h x t [] nt (ne, off) d (at, nz, end) = (
  at,
  nz,
  (
    update_self (update next t 0) x t,
    nt,
    update_ne (update next t 0) x t t ne ∙ update_self next t 0,
  ),
)
Line-link next h x t (y ∷ ys) nt (ne, off) (here, d) (at, nz, more) =
    let kept : update (update next t 0) (last_of y ys) t x ≡ next x =
      update_ne (update next t 0) (last_of y ys) x t (ne-last_of x y ys here)
      ∙ update_ne next t x 0 (λ e. ne (sym e)) in
    (
      at,
      nz,
      subst (λ n. Line (update (update next t 0) (last_of y ys) t) n (y ∷ (ys ++ t ∷ [])))
          (sym kept) (Line-link next (next x) y t ys nt off d more),
    )

pub enqueue-Holds :
    (t : ℕ) (w : Waiting) (s : Sched) (ws : List ℕ)
    → t ≢ 0
    → Off t ws
    → Holds s.wait_next w ws
    → let (w', s') = enqueue t w s in Holds s'.wait_next w' (ws ++ t ∷ [])
unfolding enqueue last_of Line Distinct Off
enqueue-Holds t w s [] nt off v =
    let empty : w.tail == 0 ≡ true = ground (arith, v.tail) in
    rw empty
      (record { line = (refl, nt, update_self s.wait_next t 0); tail = refl; distinct = (off, _) })
enqueue-Holds t w s (x ∷ xs) nt off v =
    let nz = last_of-ne_zero s.wait_next w.head x xs v.line in
    let some_thread : w.tail == 0 ≡ false = ground (arith, v.tail, nz) in
    rw some_thread (record {
      line =
          subst (λ l. Line (update (update s.wait_next t 0) l t) w.head (x ∷ (xs ++ t ∷ [])))
            (sym v.tail) (Line-link s.wait_next w.head x t xs nt off v.distinct v.line);
      tail = sym (last_of-append x t xs);
      distinct = Distinct-snoc t (x ∷ xs) v.distinct off;
    })

-- The first thread, and the others after it has left.
pub dequeue-Holds :
    (t : ℕ) (w : Waiting) (s : Sched) (ws : List ℕ)
    → Holds s.wait_next w (t ∷ ws)
    → let (w', s') = dequeue w s in Holds s'.wait_next w' ws
unfolding dequeue last_of Line Distinct
dequeue-Holds t w s [] v =
    let (at, nz, end) = v.line in
    let done : s.wait_next w.head ≡ 0 = ap s.wait_next at ∙ end in
    rw done (record { line = refl; tail = refl; distinct = _ })
dequeue-Holds t w s (y ∷ ys) v =
    let (at, nz, (here, ny, more)) = v.line in
    let next : s.wait_next w.head ≡ y = ap s.wait_next at ∙ here in
    let some_thread : s.wait_next w.head == 0 ≡ false = ground (arith, next, ny) in
    let (off, d) = v.distinct in
    rw some_thread (record {
      line =
          Line-update s.wait_next (s.wait_next w.head) (y ∷ ys) w.head 0
            (subst (λ z. Off z (y ∷ ys)) (sym at) off) (next, ny, more);
      tail = v.tail;
      distinct = d;
    })

-- The loop of a release wakes the first threads, in their order.
pub wake_first-release_all :
    (n : ℕ) (w : Waiting) (s : Sched) (ws : List ℕ)
    → Holds s.wait_next w ws
    → let (rel, w', s') = wake_first n w s in
      (rel ≡ n - length ws) × (s' ≡ release_all (take n ws) s) × Holds s'.wait_next w' (drop n ws)
unfolding wake_first release_all release Line dequeue
wake_first-release_all zero w s ws v = (omega arith, refl, v)
wake_first-release_all (suc n) w s [] v =
    let none_left : w.head == 0 ≡ true = ground (arith, v.line) in
    rw (none_left, wake_first) (omega arith, refl, v)
wake_first-release_all (suc n) w s (t ∷ ws) v =
    let (at, nz, more) = v.line in
    let some_thread : w.head == 0 ≡ false = ground (arith, at, nz) in
    let (w', cut) = dequeue w s in
    let (rel, state, holds) =
      wake_first-release_all n w' (release w.head s) ws (
        subst (λ f. Holds f w' ws) (sym (release-wait_next w.head s)) (dequeue-Holds t w s ws v)) in
    rw (some_thread, wake_first)
      (omega (arith, rel), state ∙ ap (λ u. release_all (take n ws) (release u s)) at, holds)
