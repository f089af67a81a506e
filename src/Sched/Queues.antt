-- ===== src/Sched/Queues.antt =====
-- The ready queues as lists of threads: the links hold one list per priority, QueuePushBack adds at
-- the end of one and QueuePop takes the first of the highest that is not empty.
use micro_nt.Base.{
  ℕ, zero, suc, ◌≤◌, ◌<◌, ◌≡◌, refl, sym, ap, subst, ◌∙◌, ◌≢◌, inl, inr, true, false, List, [], ◌∷◌,
  ◌++◌, ◌==◌, arith, update, update_self, update_ne, Bool-cases,
}
use Prim.{Unit}
use micro_nt.Sched.{
  Links, Sched, insert_before, queue_remove, queue_pop, queue_push_back, clamp_pri, sentinel,
}
use micro_nt.Sched.Ring.{
  Off, Distinct, Chain, Agrees, Chain-Agrees, Chain-last, Chain-insert_before, Chain-queue_remove,
}

-- No node of the first list is in the second.
unfoldable pub Apart : List ℕ → List ℕ → Type 0
Apart [] ys = Unit
Apart (x ∷ xs) ys = Off x ys × Apart xs ys

pub Off-append : (y t : ℕ) (xs : List ℕ) → Off y xs → y ≢ t → Off y (xs ++ t ∷ [])
unfolding Off
Off-append y t [] o ne = (ne, _)
Off-append y t (x ∷ xs) (yx, o) ne = (yx, Off-append y t xs o ne)

Distinct-append : (t : ℕ) (xs : List ℕ) → Distinct xs → Off t xs → Distinct (xs ++ t ∷ [])
unfolding Off Distinct
Distinct-append t [] d o = (_, _)
Distinct-append t (x ∷ xs) (ox, d) (tx, o) =
    (Off-append x t xs ox (λ e. tx (sym e)), Distinct-append t xs d o)

Apart-append_left : (t : ℕ) (xs ys : List ℕ) → Apart xs ys → Off t ys → Apart (xs ++ t ∷ []) ys
unfolding Apart
Apart-append_left t [] ys a o = (o, _)
Apart-append_left t (x ∷ xs) ys (ox, a) o = (ox, Apart-append_left t xs ys a o)

Apart-append_right : (t : ℕ) (xs ys : List ℕ) → Apart xs ys → Off t xs → Apart xs (ys ++ t ∷ [])
unfolding Apart Off
Apart-append_right t [] ys a o = _
Apart-append_right t (x ∷ xs) ys (ox, a) (tx, o) =
    (Off-append x t ys ox (λ e. tx (sym e)), Apart-append_right t xs ys a o)

Apart-tail : (y : ℕ) (xs ys : List ℕ) → Apart xs (y ∷ ys) → Apart xs ys
unfolding Apart Off
Apart-tail y [] ys a = _
Apart-tail y (x ∷ xs) ys ((xy, o), a) = (o, Apart-tail y xs ys a)

-- The node before the end of a chain is off a list that is apart from the chain.
Off-last :
    (l : Links) (a : ℕ) (xs : List ℕ) (b : ℕ) (ys : List ℕ)
    → Chain l a xs b
    → Off a ys
    → Apart xs ys
    → Off (l.prev b) ys
unfolding Chain Apart
Off-last l a [] b ys (f, g) o d = subst (λ z. Off z ys) (sym g) o
Off-last l a (x ∷ xs) b ys (f, g, r) o (ox, d) = Off-last l x xs b ys r ox d

-- A thread is neither null nor a sentinel.
unfoldable pub IsThread : ℕ → Type 0
IsThread t = 3 < t

-- The ring of one priority.
pub record Ring (l : Links) (pri : ℕ) (xs : List ℕ) : Type 0 where
  pub chain : Chain l (sentinel pri) xs (sentinel pri)
  pub distinct : Distinct xs
  pub threads : (i : ℕ) → i ≤ 3 → Off i xs

-- The queues that the links hold, by priority.
pub record Holds (l : Links) (qs : ℕ → List ℕ) : Type 0 where
  pub ring : (pri : ℕ) → pri < 3 → Ring l pri (qs pri)
  pub apart : (i j : ℕ) → i < 3 → j < 3 → i ≢ j → Apart (qs i) (qs j)

-- A thread that no queue holds.
pub record Idle (t : ℕ) (qs : ℕ → List ℕ) : Type 0 where
  pub thread : IsThread t
  pub off : (pri : ℕ) → pri < 3 → Off t (qs pri)

module _ (l : Links) (qs : ℕ → List ℕ) (v : Holds l qs) (t : ℕ) (idle : Idle t qs) (pri : ℕ)
    (lt : pri < 3) where
  pushed-Ring : Ring (insert_before t (sentinel pri) l) pri (qs pri ++ t ∷ [])
  unfolding IsThread
  pushed-Ring =
      let r = v.ring pri lt in
      let threads : (i : ℕ) → i ≤ 3 → Off i (qs pri ++ t ∷ []) =
        λ i le. Off-append i t (qs pri) (r.threads i le) (omega (arith, idle.thread)) in
      let ne : t ≢ sentinel pri = omega (arith, idle.thread) in
      record {
        chain =
            Chain-insert_before l t (sentinel pri) (qs pri) (sentinel pri) r.chain ne ne
              (idle.off pri lt) (r.threads (sentinel pri) (omega arith))
              (r.threads (sentinel pri) (omega arith)) r.distinct;
        distinct = Distinct-append t (qs pri) r.distinct (idle.off pri lt);
        threads = threads;
      }

  other-Ring : (i : ℕ) → i < 3 → i ≢ pri → Ring (insert_before t (sentinel pri) l) i (qs i)
  unfolding IsThread Agrees insert_before
  other-Ring i li ne =
      let r = v.ring pri lt in
      let o = v.ring i li in
      let last_off : Off (l.prev (sentinel pri)) (qs i) =
        Off-last l (sentinel pri) (qs pri) (sentinel pri) (qs i) r.chain
          (o.threads (sentinel pri) (omega arith)) (v.apart pri i lt li (λ e. ne (sym e))) in
      let last_ne : sentinel i ≢ l.prev (sentinel pri) =
        Chain-last l (sentinel i) (sentinel pri) (qs pri) (sentinel pri) r.chain (omega arith)
          (r.threads (sentinel i) (omega arith)) in
      record {
        chain =
            Chain-Agrees l (insert_before t (sentinel pri) l) t (l.prev (sentinel pri)) t
              (sentinel pri) (sentinel i) (qs i) (sentinel i) (λ y yt yl. ground arith)
              (λ y yt ys. ground arith) (omega (arith, idle.thread)) last_ne
              (omega (arith, idle.thread)) (omega arith) (idle.off i li) last_off (idle.off i li)
              (o.threads (sentinel pri) (omega arith)) o.chain;
        distinct = o.distinct;
        threads = o.threads;
      }

-- A change of one queue, the others kept.
update-Holds :
    (l m : Links) (qs : ℕ → List ℕ) (pri : ℕ) (xs : List ℕ)
    → Holds l qs
    → Ring m pri xs
    → ((i : ℕ) → i < 3 → i ≢ pri → Ring m i (qs i) × Apart xs (qs i) × Apart (qs i) xs)
    → Holds m (update qs pri xs)
update-Holds l m qs pri xs v mine others = record {
  ring = λ i li. elim (Bool-cases (i == pri)) [
    | inl hit ↦
        let e : i ≡ pri = ground arith in
        subst (λ j. Ring m j (update qs pri xs j)) (sym e)
          (subst (λ q. Ring m pri q) (sym (update_self qs pri xs)) mine)
    | inr miss ↦ rw miss ((others i li (ground arith)).0)
  ];
  apart = λ i j li lj ne. elim (Bool-cases (i == pri)) [
    | inl hit ↦
        let i_pri : i ≡ pri = ground arith in
        let j_pri : j ≢ pri = λ e. ne (i_pri ∙ sym e) in
        rw (hit, update_ne qs pri j xs j_pri) ((others j lj j_pri).1)
    | inr miss ↦ elim (Bool-cases (j == pri)) [
      | inl hit ↦ rw (miss, hit) ((others i li (ground arith)).2)
      | inr miss_too ↦ rw (miss, miss_too) (v.apart i j li lj ne)
    ]
  ];
}

pub clamped : (p : ℕ) → clamp_pri p < 3
unfolding clamp_pri
clamped p = ground arith

-- If the links hold the queues and no queue holds the thread, after QueuePushBack the links hold
-- the same queues with the thread at the end of the one of its clamped priority.
pub queue_push_back-Holds :
    (t : ℕ) (s : Sched) (qs : ℕ → List ℕ)
    → Holds s.links qs
    → Idle t qs
    → let pri = clamp_pri (s.priority t) in
      Holds (queue_push_back t s).links (update qs pri (qs pri ++ t ∷ []))
unfolding queue_push_back
queue_push_back-Holds t s qs v idle =
    let pri = clamp_pri (s.priority t) in
    let lt : pri < 3 = clamped (s.priority t) in
    update-Holds s.links _ qs pri (qs pri ++ t ∷ []) v (pushed-Ring s.links qs v t idle pri lt)
      (λ i li ne. (
        other-Ring s.links qs v t idle pri lt i li ne,
        Apart-append_left t (qs pri) (qs i) (v.apart pri i lt li (λ e. ne (sym e))) (idle.off i li),
        Apart-append_right t (qs i) (qs pri) (v.apart i pri li lt ne) (idle.off i li),
      ))

-- The node after the start of a chain is in the chain or its end.
Off-next :
    (l : Links) (a : ℕ) (xs : List ℕ) (b : ℕ) (ys : List ℕ)
    → Chain l a xs b
    → Off b ys
    → Apart xs ys
    → Off (l.next a) ys
unfolding Chain Apart
Off-next l a [] b ys (f, g) o d = subst (λ z. Off z ys) (sym f) o
Off-next l a (x ∷ xs) b ys (f, g, r) o (ox, d) = subst (λ z. Off z ys) (sym f) ox

ne-next :
    (l : Links) (y a : ℕ) (xs : List ℕ) (b : ℕ) → Chain l a xs b → y ≢ b → Off y xs → y ≢ l.next a
unfolding Chain Off
ne-next l y a [] b (f, g) yb o = λ e. yb (e ∙ f)
ne-next l y a (x ∷ xs) b (f, g, r) yb (yx, o) = λ e. yx (e ∙ f)

-- The first thread of a queue leaves it.
module _ (l : Links) (qs : ℕ → List ℕ) (v : Holds l qs) (pri : ℕ) (lt : pri < 3) (t : ℕ)
    (xs : List ℕ) (queue : qs pri ≡ t ∷ xs) where
  whole : Ring l pri (t ∷ xs)
  whole = subst (λ q. Ring l pri q) queue (v.ring pri lt)

  popped-Ring : Ring (queue_remove t l) pri xs
  unfolding Off Distinct
  popped-Ring =
      let off : (i : ℕ) → i ≤ 3 → Off i (t ∷ xs) = whole.threads in
      record {
        chain =
            Chain-queue_remove l t (sentinel pri) xs (sentinel pri) whole.chain (omega arith)
              (omega arith) (λ e. (off (sentinel pri) (omega arith)).0 (sym e))
              (λ e. (off (sentinel pri) (omega arith)).0 (sym e)) (off 0 (omega arith)).1
              whole.distinct.0 (off (sentinel pri) (omega arith)).1
              (off (sentinel pri) (omega arith)).1 whole.distinct.1;
        distinct = whole.distinct.1;
        threads = λ i le. (off i le).1;
      }

  kept-Ring : (i : ℕ) → i < 3 → i ≢ pri → Ring (queue_remove t l) i (qs i)
  unfolding Agrees queue_remove Chain Apart Off
  kept-Ring i li ne =
      let o = v.ring i li in
      let a : Apart (t ∷ xs) (qs i) =
        subst (λ q. Apart q (qs i)) queue (v.apart pri i lt li (λ e. ne (sym e))) in
      let off_t : sentinel i ≢ t = (whole.threads (sentinel i) (omega arith)).0 in
      let back : l.prev t ≡ sentinel pri = whole.chain.1 in
      record {
        chain =
            Chain-Agrees l (queue_remove t l) t (sentinel pri) t (l.next t) (sentinel i) (qs i)
              (sentinel i) (λ y yt yl. ground arith) (λ y yt ys. ground arith) off_t (omega arith)
              off_t
              (ne-next l (sentinel i) t xs (sentinel pri) whole.chain.2 (omega arith)
                (whole.threads (sentinel i) (omega arith)).1)
              a.0 (o.threads (sentinel pri) (omega arith)) a.0
              (Off-next l t xs (sentinel pri) (qs i) whole.chain.2
                (o.threads (sentinel pri) (omega arith)) a.1)
              o.chain;
        distinct = o.distinct;
        threads = o.threads;
      }

  -- QueueRemove of the first thread of a queue leaves the rest of the queue and the other queues, and
  -- the thread is idle.
  pub queue_remove-Holds : Holds (queue_remove t l) (update qs pri xs)
  unfolding Apart
  queue_remove-Holds = update-Holds l (queue_remove t l) qs pri xs v popped-Ring (λ i li ne. (
    kept-Ring i li ne,
    (subst (λ q. Apart q (qs i)) queue (v.apart pri i lt li (λ e. ne (sym e)))).1,
    Apart-tail t (qs i) xs (subst (λ q. Apart (qs i) q) queue (v.apart i pri li lt ne)),
  ))

  pub first-Idle : Idle t (update qs pri xs)
  unfolding Off Distinct IsThread Apart
  first-Idle = record {
    thread = omega (
      arith,
      (whole.threads 0 (omega arith)).0,
      (whole.threads 1 (omega arith)).0,
      (whole.threads 2 (omega arith)).0,
      (whole.threads 3 (omega arith)).0,
    );
    off = λ i li. elim (Bool-cases (i == pri)) [
      | inl hit ↦ rw hit (whole.distinct.0)
      | inr miss ↦
          rw miss
            ((subst (λ q. Apart q (qs i)) queue (v.apart pri i lt li (λ e. ground (arith, e)))).0)
    ];
  }

-- What QueuePop returns, when it looks at the priorities below `n`.
pub data Pop (n : ℕ) (l : Links) (qs : ℕ → List ℕ) : ℕ × Links → Type 0 where
  none_ready : ((j : ℕ) → j < n → qs j ≡ []) → Pop n l qs (0, l)
  taken :
      (pri t : ℕ) (xs : List ℕ)
      → pri < n
      → qs pri ≡ t ∷ xs
      → ((j : ℕ) → pri < j → j < n → qs j ≡ [])
      → Pop n l qs (t, queue_remove t l)

-- The search goes on below an empty queue.
Pop-below :
    (pri : ℕ) (l : Links) (qs : ℕ → List ℕ) (r : ℕ × Links)
    → qs pri ≡ []
    → Pop pri l qs r
    → Pop (suc pri) l qs r
Pop-below pri l qs r e (none_ready all) = none_ready (λ j lt. below j lt all)
  where
    below : (j : ℕ) → j < suc pri → ((j : ℕ) → j < pri → qs j ≡ []) → qs j ≡ []
    below j lt all = elim (Bool-cases (j == pri)) [
      | inl hit ↦ ap qs (ground arith) ∙ e
      | inr miss ↦ all j (ground arith)
    ]
Pop-below pri l qs r e (taken k t xs lt at all) = taken k t xs (omega (arith, lt)) at (λ j kj lj.
    elim (Bool-cases (j == pri)) [
      | inl hit ↦ ap qs (ground arith) ∙ e
      | inr miss ↦ all j kj (ground arith)
    ])

-- If the links hold the queues, QueuePop over the priorities below `n`, at most three, returns
-- the first thread of the highest queue that is not empty and removes it, or returns 0 and leaves
-- the links when all are empty.
pub queue_pop-Pop :
    (n : ℕ) (l : Links) (qs : ℕ → List ℕ) → n ≤ 3 → Holds l qs → Pop n l qs (queue_pop n l)
unfolding queue_pop Chain Off
queue_pop-Pop zero l qs le v = none_ready (λ j lt. absurd (omega (arith, lt)))
queue_pop-Pop (suc pri) l qs le v =
    from (qs pri) refl (v.ring pri (omega (arith, le)))
      (queue_pop-Pop pri l qs (omega (arith, le)) v)
  where
    from :
        (q : List ℕ)
        → qs pri ≡ q
        → Ring l pri q
        → Pop pri l qs (queue_pop pri l)
        → Pop (suc pri) l qs (queue_pop (suc pri) l)
    from [] e r below =
        let next : l.next (sentinel pri) ≡ sentinel pri = r.chain.0 in
        let hit : l.next (sentinel pri) == sentinel pri ≡ true = ground arith in
        rw hit (Pop-below pri l qs _ e below)
    from (t ∷ xs) e r below =
        let next : l.next (sentinel pri) ≡ t = r.chain.0 in
        let ne : sentinel pri ≢ t = (r.threads (sentinel pri) (omega arith)).0 in
        let miss : l.next (sentinel pri) == sentinel pri ≡ false = ground arith in
        rw (miss, next) (taken pri t xs (omega arith) e (λ j a b. absurd (omega (arith, a, b))))
