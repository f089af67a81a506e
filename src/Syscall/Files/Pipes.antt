-- ===== src/Syscall/Files/Pipes.antt =====
-- What a write to a pipe stores, and what a read of one does.
use micro_nt.Base.{
  ℕ, zero, suc, ◌+◌, ◌-◌, ◌%◌, ◌≤◌, ◌<◌, ◌≡◌, refl, sym, ap, subst, ◌∙◌, ◌≢◌, inl, inr, true, some,
  ltb, ◌==◌, arith, update, update_self, update_ne, Bool-cases,
}
use micro_nt.Ntdef.{word_mod}
use micro_nt.Vmm.{Vmm}
use micro_nt.Syscall.Memory.{caller, read_user_byte}
use micro_nt.Syscall.Files.{
  Files, Pipe, pipe_handle_base, max_pipes, pipe_room, is_pipe, capped, fill_pipe, write_pipe,
  write_file, read_file, cr3_of,
}

-- The pipe after a write of `n` bytes that stand at `va`.
pub record Appended (n pml4 va : ℕ) (s : Vmm) (p q : Pipe) : Type 0 where
  pub size : q.size ≡ p.size + n
  pub old : (j : ℕ) → j < p.size → q.bytes j ≡ p.bytes j
  pub new : (j : ℕ) → j < n → q.bytes (p.size + j) ≡ read_user_byte pml4 ((va + j) % word_mod) s
  pub name : q.name ≡ p.name
  pub used : q.used ≡ p.used

capped-zero : (most : ℕ) → capped most 0 ≡ 0
unfolding capped
capped-zero most = ground arith

capped-none : (n : ℕ) → capped 0 n ≡ 0
unfolding capped
capped-none n = ground arith

capped-suc : (most n : ℕ) → 0 < most → capped most (suc n) ≡ suc (capped (most - 1) n)
unfolding capped
capped-suc most n pos = ground arith

Appended-none : (pml4 va : ℕ) (s : Vmm) (p : Pipe) → Appended 0 pml4 va s p p
Appended-none pml4 va s p = record {
  size = omega arith;
  old = λ j lt. refl;
  new = λ j lt. absurd (omega (arith, lt));
  name = refl;
  used = refl;
}

-- The byte at `va`, at the end.
abbrev one_more : ℕ → ℕ → Vmm → Pipe → Pipe
one_more pml4 va s p = record p {
  bytes = update p.bytes p.size (read_user_byte pml4 (va % word_mod) s);
  size = p.size + 1;
}

Appended-suc :
    (n pml4 va : ℕ) (s : Vmm) (p q : Pipe)
    → Appended n pml4 (va + 1) s (one_more pml4 va s p) q
    → Appended (suc n) pml4 va s p q
Appended-suc n pml4 va s p q a = record {
  size = omega (arith, a.size);
  old = λ j lt. a.old j (omega (arith, lt)) ∙ update_ne p.bytes p.size j _ (omega (arith, lt));
  new = λ j lt. elim (Bool-cases (j == 0)) [
    | inl first ↦
        let e : j ≡ 0 = ground (arith, first) in
        rw e (
          ap q.bytes (omega arith)
          ∙ a.old p.size (omega arith)
          ∙ update_self p.bytes p.size (read_user_byte pml4 (va % word_mod) s)
          ∙ ap (λ x. read_user_byte pml4 (x % word_mod) s) (omega arith))
    | inr later ↦
        let before : p.size + j ≡ p.size + 1 + (j - 1) = ground (arith, later) in
        let place : va + 1 + (j - 1) ≡ va + j = ground (arith, later) in
        ap q.bytes before
        ∙ a.new (j - 1) (ground (arith, later, lt))
        ∙ ap (λ x. read_user_byte pml4 (x % word_mod) s) place
  ];
  name = a.name;
  used = a.used;
}

fill_pipe-Appended :
    (rounds w pml4 va : ℕ) (s : Vmm) (p : Pipe)
    → p.size ≤ pipe_room
    → let (n, q) = fill_pipe rounds w pml4 va s p in
      (n ≡ w + capped (pipe_room - p.size) rounds)
      × Appended (capped (pipe_room - p.size) rounds) pml4 (va + w) s p q
unfolding fill_pipe
fill_pipe-Appended zero w pml4 va s p le =
    rw (capped-zero (pipe_room - p.size)) (omega arith, Appended-none pml4 (va + w) s p)
fill_pipe-Appended (suc rounds) w pml4 va s p le = elim (Bool-cases (ltb p.size pipe_room)) [
  | inr full ↦
      let none_left : pipe_room - p.size ≡ 0 = ground (arith, full) in
      rw (full, none_left, capped-none (suc rounds)) (omega arith, Appended-none pml4 (va + w) s p)
  | inl room ↦
      let open_slot : 0 < pipe_room - p.size = ground (arith, room) in
      let (n, a) =
        fill_pipe-Appended rounds (w + 1) pml4 va s (one_more pml4 (va + w) s p)
          (ground (arith, room)) in
      let left : pipe_room - (p.size + 1) ≡ pipe_room - p.size - 1 = omega arith in
      let next : va + (w + 1) ≡ va + w + 1 = omega arith in
      rw (room, capped-suc (pipe_room - p.size) rounds open_slot)
        (
          n ∙ ap (λ x. w + 1 + capped x rounds) left ∙ omega arith,
          Appended-suc (capped (pipe_room - p.size - 1) rounds) pml4 (va + w) s p _ (
              subst
                (λ x.
                  Appended (capped x rounds) pml4 (va + w + 1) s (one_more pml4 (va + w) s p)
                    (fill_pipe rounds (w + 1) pml4 va s (one_more pml4 (va + w) s p)).1)
                left
                (subst
                  (λ x.
                    Appended (capped (pipe_room - (p.size + 1)) rounds) pml4 x s
                      (one_more pml4 (va + w) s p)
                      (fill_pipe rounds (w + 1) pml4 va s (one_more pml4 (va + w) s p)).1)
                  next a)),
        )
]

write_pipe_lem :
    (i p a2 a3 : ℕ) (s : Files)
    → (s.pipes i).used ≡ true
    → caller s.services.ps ≡ some p
    → write_pipe i a2 a3 s ≡ (
        let (n, filled) = fill_pipe (capped 512 a3) 0 (cr3_of p s) a2 s.services.vmm (s.pipes i) in
        (n, record s { pipes = update s.pipes i filled }))
unfolding write_pipe
write_pipe_lem i p a2 a3 s used is = rw (is, used, write_pipe) refl

write_file-write_pipe :
    (a1 a2 a3 : ℕ) (s : Files)
    → is_pipe a1 ≡ true
    → write_file a1 a2 a3 s ≡ write_pipe (a1 - pipe_handle_base) a2 a3 s
unfolding write_file
write_file-write_pipe a1 a2 a3 s pipe = rw pipe refl

read_file-write_pipe :
    (a1 a2 a3 a4 p : ℕ) (s : Files)
    → is_pipe a1 ≡ true
    → caller s.services.ps ≡ some p
    → read_file a1 a2 a3 a4 s ≡ write_pipe (a1 - pipe_handle_base) a2 a3 s
unfolding read_file
read_file-write_pipe a1 a2 a3 a4 p s pipe is = rw (is, pipe, read_file) refl

-- What a write of up to `a3` bytes to the i-th pipe does: all else stays as it was.
pub record Wrote (i p a2 a3 : ℕ) (s : Files) (r : ℕ × Files) : Type 0 where
  pub count : r.0 ≡ capped (pipe_room - (s.pipes i).size) (capped 512 a3)
  pub appended : Appended r.0 (cr3_of p s) a2 s.services.vmm (s.pipes i) (r.1.pipes i)
  pub others : (j : ℕ) → j ≢ i → r.1.pipes j ≡ s.pipes j
  pub services : r.1.services ≡ s.services
  pub vfs : r.1.vfs ≡ s.vfs
  pub console : r.1.console ≡ s.console

-- For a pipe in use that is not over-full, and a caller with a process, NtWriteFile appends the
-- bytes that stand at the caller's address, as many as are asked for, at most 512, and as fit,
-- returns their number, and changes neither the rest of the pipe, nor another pipe, nor the file
-- system, the console, memory, processes or sections.
pub write_file-Appended :
    (i p a2 a3 : ℕ) (s : Files)
    → i < max_pipes
    → (s.pipes i).used ≡ true
    → (s.pipes i).size ≤ pipe_room
    → caller s.services.ps ≡ some p
    → Wrote i p a2 a3 s (write_file (pipe_handle_base + i) a2 a3 s)
write_file-Appended i p a2 a3 s lt used le is =
    let pipe : is_pipe (pipe_handle_base + i) ≡ true = ground (arith, lt) in
    let index : pipe_handle_base + i - pipe_handle_base ≡ i = omega arith in
    let (n, a) =
      fill_pipe-Appended (capped 512 a3) 0 (cr3_of p s) a2 s.services.vmm (s.pipes i) le in
    let filled : Pipe =
      (fill_pipe (capped 512 a3) 0 (cr3_of p s) a2 s.services.vmm (s.pipes i)).1 in
    let count : (fill_pipe (capped 512 a3) 0 (cr3_of p s) a2 s.services.vmm (s.pipes i)).0
        ≡ capped (pipe_room - (s.pipes i).size) (capped 512 a3) =
      n ∙ omega arith in
    let does : write_file (pipe_handle_base + i) a2 a3 s ≡ (
        let (w, f) = fill_pipe (capped 512 a3) 0 (cr3_of p s) a2 s.services.vmm (s.pipes i) in
        (w, record s { pipes = update s.pipes i f })) =
      write_file-write_pipe (pipe_handle_base + i) a2 a3 s pipe
      ∙ ap (λ x. write_pipe x a2 a3 s) index
      ∙ write_pipe_lem i p a2 a3 s used is in
    rw does (record {
      count = count;
      appended =
          subst
            (λ x. Appended x (cr3_of p s) a2 s.services.vmm (s.pipes i) (update s.pipes i filled i))
            (sym count)
            (subst
              (λ x.
                Appended (capped (pipe_room - (s.pipes i).size) (capped 512 a3)) (cr3_of p s) a2
                  s.services.vmm (s.pipes i) x)
              (sym (update_self s.pipes i filled))
              (subst
                (λ x.
                  Appended (capped (pipe_room - (s.pipes i).size) (capped 512 a3)) (cr3_of p s) x
                    s.services.vmm (s.pipes i) filled)
                (omega arith) a));
      others = λ j ne. update_ne s.pipes i j filled ne;
      services = refl;
      vfs = refl;
      console = refl;
    })

-- A read takes the same loop.
read_file-write_file :
    (a1 a2 a3 a4 p : ℕ) (s : Files)
    → is_pipe a1 ≡ true
    → caller s.services.ps ≡ some p
    → read_file a1 a2 a3 a4 s ≡ write_file a1 a2 a3 s
read_file-write_file a1 a2 a3 a4 p s pipe is =
    read_file-write_pipe a1 a2 a3 a4 p s pipe is ∙ sym (write_file-write_pipe a1 a2 a3 s pipe)

-- For a pipe in use that is not over-full, and a caller with a process, NtReadFile appends to the
-- pipe the bytes that stand at the caller's address, as many as its third argument says, which is
-- the offset for a read, at most 512, and as fit, returns their number, and changes neither the
-- rest of the pipe, nor another pipe, nor the file system, the console, memory, processes or
-- sections.
pub read_file-Appended :
    (i p a2 a3 a4 : ℕ) (s : Files)
    → i < max_pipes
    → (s.pipes i).used ≡ true
    → (s.pipes i).size ≤ pipe_room
    → caller s.services.ps ≡ some p
    → Wrote i p a2 a3 s (read_file (pipe_handle_base + i) a2 a3 a4 s)
read_file-Appended i p a2 a3 a4 s lt used le is =
    let pipe : is_pipe (pipe_handle_base + i) ≡ true = ground (arith, lt) in
    subst (Wrote i p a2 a3 s)
      (sym (read_file-write_file (pipe_handle_base + i) a2 a3 a4 p s pipe is))
      (write_file-Appended i p a2 a3 s lt used le is)
