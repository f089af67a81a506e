-- ===== src/Syscall/Files/Names.antt =====
-- Pipes by their names.
use micro_nt.Base.{
  ℕ, zero, suc, ◌+◌, ◌≤◌, ◌<◌, ◌≡◌, refl, sym, ap, ◌∙◌, inl, inr, true, false, ◌&&◌, none, some,
  List, ◌==◌, arith, update, update_ne, Bool-cases, Option-cases,
}
use micro_nt.Ldr.{name_eq}
use micro_nt.Ldr.Modules.{name_eq_self}
use micro_nt.Syscall.Files.{Pipe, max_pipes, pipe_handle_base, find_pipe, free_pipe, open_pipe}

-- A free pipe is not in use.
free_pipe-some :
    (n i j : ℕ) (pipes : ℕ → Pipe)
    → free_pipe n i pipes ≡ some j
    → ((pipes j).used ≡ false) × (i ≤ j) × (j < i + n)
unfolding free_pipe
free_pipe-some zero i j pipes e = absurd (cc)
free_pipe-some (suc n) i j pipes e = ground (arith, free_pipe-some n (i + 1) j pipes)

-- A pipe that was free and takes the name is the one that is found.
find_pipe-update :
    (n i j : ℕ) (name : List ℕ) (pipes : ℕ → Pipe) (p : Pipe)
    → find_pipe n i name pipes ≡ none
    → i ≤ j
    → j < i + n
    → p.used ≡ true
    → p.name ≡ name
    → find_pipe n i name (update pipes j p) ≡ some j
unfolding find_pipe
find_pipe-update zero i j name pipes p e ge lt used same = absurd (omega (arith, ge, lt))
find_pipe-update (suc n) i j name pipes p e ge lt used same = elim (Bool-cases (i == j)) [
  | inl here ↦
      let named : name_eq p.name name ≡ true = ap (λ x. name_eq x name) same ∙ name_eq_self name in
      let at : i ≡ j = ground (arith, here) in rw (here, used, named) (ap some at)
  | inr later ↦ elim (Bool-cases ((pipes i).used && name_eq (pipes i).name name)) [
    | inl hit ↦ absurd (ground (arith, e, hit))
    | inr miss ↦
        let rest : find_pipe n (i + 1) name pipes ≡ none = rw miss at e in
        rw (later, miss)
          (find_pipe-update n (i + 1) j name pipes p rest (ground (arith, ge, later))
            (omega (arith, lt)) used same)
  ]
]

open_pipe_found :
    (name : List ℕ) (pipes : ℕ → Pipe) (i : ℕ)
    → find_pipe max_pipes 0 name pipes ≡ some i
    → open_pipe name pipes ≡ (pipe_handle_base + i, pipes)
unfolding open_pipe
open_pipe_found name pipes i e = rw (e, open_pipe) refl

open_pipe_made :
    (name : List ℕ) (pipes : ℕ → Pipe) (i : ℕ)
    → find_pipe max_pipes 0 name pipes ≡ none
    → free_pipe max_pipes 0 pipes ≡ some i
    → open_pipe name pipes ≡ (
      pipe_handle_base + i,
      update pipes i (record (pipes i) { name = name; size = 0; used = true }),
    )
unfolding open_pipe
open_pipe_made name pipes i absent free = rw (absent, free, open_pipe) refl

-- A pipe is found among those that are tried.
find_pipe-some :
    (n i j : ℕ) (name : List ℕ) (pipes : ℕ → Pipe) → find_pipe n i name pipes ≡ some j → j < i + n
unfolding find_pipe
find_pipe-some zero i j name pipes e = absurd (cc)
find_pipe-some (suc n) i j name pipes e = ground (arith, find_pipe-some n (i + 1) j name pipes)

-- If no pipe is free, all are in use.
free_pipe-none :
    (n i j : ℕ) (pipes : ℕ → Pipe)
    → free_pipe n i pipes ≡ none
    → i ≤ j
    → j < i + n
    → (pipes j).used ≡ true
unfolding free_pipe
free_pipe-none zero i j pipes e ge lt = absurd (omega (arith, ge, lt))
free_pipe-none (suc n) i j pipes e ge lt = elim (Bool-cases (pipes i).used) [
  | inr free ↦ absurd (ground (arith, e, free))
  | inl used ↦ elim (Bool-cases (i == j)) [
    | inl here ↦ let at : i ≡ j = ground (arith, here) in ap (λ x. (pipes x).used) (sym at) ∙ used
    | inr later ↦
        let rest : free_pipe n (i + 1) pipes ≡ none = rw used at e in
        free_pipe-none n (i + 1) j pipes rest (ground (arith, ge, later)) (omega (arith, lt))
  ]
]

open_pipe_full :
    (name : List ℕ) (pipes : ℕ → Pipe)
    → find_pipe max_pipes 0 name pipes ≡ none
    → free_pipe max_pipes 0 pipes ≡ none
    → open_pipe name pipes ≡ (0, pipes)
unfolding open_pipe
open_pipe_full name pipes absent full = rw (absent, full, open_pipe) refl

-- What an opening does.
pub data Opened (name : List ℕ) (pipes : ℕ → Pipe) : ℕ × (ℕ → Pipe) → Type 0 where
  full :
      find_pipe max_pipes 0 name pipes ≡ none
      → ((i : ℕ) → i < max_pipes → (pipes i).used ≡ true)
      → Opened name pipes (0, pipes)
  opened :
      (i : ℕ) (pipes' : ℕ → Pipe)
      → i < max_pipes
      → open_pipe name pipes' ≡ (pipe_handle_base + i, pipes')
      → ((j : ℕ) → (pipes j).used ≡ true → pipes' j ≡ pipes j)
      → Opened name pipes (pipe_handle_base + i, pipes')

-- Opening a pipe by its name either fails, when no pipe has the name and all four are in use, or
-- gives the handle of a pipe that a second opening by the name gives again, and leaves every pipe
-- in use as it was.
pub open_pipe-Opened : (name : List ℕ) (pipes : ℕ → Pipe) → Opened name pipes (open_pipe name pipes)
open_pipe-Opened name pipes = elim (Option-cases (find_pipe max_pipes 0 name pipes)) [
  | inr (i, e) ↦
      let same = open_pipe_found name pipes i e in
      rw same (opened i pipes (find_pipe-some max_pipes 0 i name pipes e) same (λ j used. refl))
  | inl absent ↦ elim (Option-cases (free_pipe max_pipes 0 pipes)) [
    | inl none_free ↦
        rw (open_pipe_full name pipes absent none_free)
          (full absent (λ i lt. free_pipe-none max_pipes 0 i pipes none_free (omega arith) lt))
    | inr (i, free) ↦
        let (unused, ge, lt) = free_pipe-some max_pipes 0 i pipes free in
        let made : Pipe = record (pipes i) { name = name; size = 0; used = true } in
        let found = find_pipe-update max_pipes 0 i name pipes made absent ge lt refl refl in
        rw (open_pipe_made name pipes i absent free) (
          opened i (update pipes i made) lt (open_pipe_found name (update pipes i made) i found)
            (λ j used.
              update_ne pipes i j made
                (λ same. absurd (ground (arith, unused, used, ap (λ x. (pipes x).used) same)))))
  ]
]
