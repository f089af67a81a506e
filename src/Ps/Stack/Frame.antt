-- ===== src/Ps/Stack/Frame.antt =====
-- What a switch to a new thread takes from its stack.
use micro_nt.Base.{
  ℕ, zero, suc, ◌+◌, ◌-◌, ◌*◌, ◌≤◌, ◌≡◌, refl, List, [], ◌∷◌, arith, update, ◌==◌, if◌then◌else◌,
  ap, ◌∙◌, ap₂, update_ne, update_self, Bool-cases, inl, inr, ◌<◌,
}
use micro_nt.Vmm.{Words}
use micro_nt.Ps.Stack.{
  stack_poke, switch_frame, kernel_stack, user_stack, user_cs, user_ss, user_flags,
}

-- The words that pops take from an address on.
pub pops : ℕ → ℕ → Words → List ℕ
pops zero sp mem = []
pops (suc n) sp mem = mem sp ∷ pops n (sp + 8) mem

-- The words of the slots from `n` up to the first, below the top of the stack.
slots : ℕ → ℕ → Words → List ℕ
slots zero top mem = []
slots (suc n) top mem = mem (top - suc n * 8) ∷ slots n top mem

pops-slots : (n top : ℕ) (mem : Words) → n * 8 ≤ top → pops n (top - n * 8) mem ≡ slots n top mem
unfolding pops slots
pops-slots zero top mem room = refl
pops-slots (suc n) top mem room =
    let up : top - suc n * 8 + 8 ≡ top - n * 8 = omega (arith, room) in
    ap (λ x. mem (top - suc n * 8) ∷ pops n x mem) up
    ∙ ap (λ xs. mem (top - suc n * 8) ∷ xs) (pops-slots n top mem (omega (arith, room)))

-- The word of one slot.
put : ℕ → ℕ → ℕ → List ℕ → List ℕ
put n i v [] = []
put zero i v (x ∷ xs) = x ∷ xs
put (suc n) i v (x ∷ xs) = let rest = put n i v xs in if suc n == i then v ∷ xs else x ∷ rest

slots-above :
    (n top i v : ℕ) (mem : Words)
    → n < i
    → i * 8 ≤ top
    → slots n top (stack_poke top i v mem) ≡ slots n top mem
unfolding slots stack_poke
slots-above zero top i v mem lt room = refl
slots-above (suc n) top i v mem lt room =
    ap₂ (λ x xs. x ∷ xs)
      (update_ne mem (top - i * 8) (top - suc n * 8) v (λ e. absurd (omega (arith, e, lt, room))))
      (slots-above n top i v mem (omega (arith, lt)) room)

slots-stack_poke :
    (n top i v : ℕ) (mem : Words)
    → n * 8 ≤ top
    → i * 8 ≤ top
    → slots n top (stack_poke top i v mem) ≡ put n i v (slots n top mem)
unfolding slots stack_poke put
slots-stack_poke zero top i v mem room room' = refl
slots-stack_poke (suc n) top i v mem room room' = elim (Bool-cases (suc n == i)) [
  | inl same ↦
      let e : suc n ≡ i = ground arith in
      rw same (
        ap₂ (λ x xs. x ∷ xs)
          (ap (λ k. update mem (top - i * 8) v (top - k * 8)) e ∙ update_self mem (top - i * 8) v)
          (slots-above n top i v mem (omega (arith, e)) room'))
  | inr other ↦ rw other (
      ap₂ (λ x xs. x ∷ xs)
        (update_ne mem (top - i * 8) (top - suc n * 8) v
          (λ e. absurd (ground (arith, e, other, room, room'))))
        (slots-stack_poke n top i v mem (omega (arith, room)) room'))
]

-- A frame, poke by poke.
module _ (n top ret entry : ℕ) (mem : Words) (room : n * 8 ≤ top)
    (room' : (ret + 6) * 8 ≤ top) where
  slots-switch_frame :
      slots n top (switch_frame top ret entry mem)
      ≡ put n (ret + 6) 0 (
          put n (ret + 5) 0 (
            put n (ret + 4) 0 (
              put n
                (ret + 3)
                0
                (put n (ret + 2) 0 (put n (ret + 1) 0 (put n ret entry (slots n top mem)))))))
  unfolding switch_frame
  slots-switch_frame =
      rw
        (
          slots-stack_poke n top (ret + 6) 0 _ room room',
          slots-stack_poke n top (ret + 5) 0 _ room (omega (arith, room')),
          slots-stack_poke n top (ret + 4) 0 _ room (omega (arith, room')),
          slots-stack_poke n top (ret + 3) 0 _ room (omega (arith, room')),
          slots-stack_poke n top (ret + 2) 0 _ room (omega (arith, room')),
          slots-stack_poke n top (ret + 1) 0 _ room (omega (arith, room')),
          slots-stack_poke n top ret entry mem room (omega (arith, room')),
        )
        refl

-- CreateKernelThread
pub kernel_stack-pops :
    (top entry : ℕ) (mem : Words)
    → 56 ≤ top
    → let (sp, words) = kernel_stack top entry mem in
      pops 7 sp words ≡ 0 ∷ 0 ∷ 0 ∷ 0 ∷ 0 ∷ 0 ∷ entry ∷ []
unfolding kernel_stack switch_frame stack_poke pops
kernel_stack-pops top entry mem room = ground arith

-- The six words above the switch frame of a user thread.
user_words : ℕ → ℕ → ℕ → ℕ → Words → Words
user_words top user_entry user_sp user_arg mem = stack_poke top 6 user_arg (
    stack_poke top 5 user_entry (
      stack_poke top 4 user_cs
        (stack_poke top 3 user_flags (stack_poke top 2 user_sp (stack_poke top 1 user_ss mem)))))

slots-user_words :
    (top user_entry user_sp user_arg : ℕ) (mem : Words)
    → 13 * 8 ≤ top
    → slots 13 top (user_words top user_entry user_sp user_arg mem)
      ≡ put 13 6 user_arg (
          put 13 5 user_entry (
            put 13 4 user_cs
              (put 13 3 user_flags (put 13 2 user_sp (put 13 1 user_ss (slots 13 top mem))))))
unfolding user_words
slots-user_words top user_entry user_sp user_arg mem room =
    rw
      (
        slots-stack_poke 13 top 6 user_arg _ room (omega (arith, room)),
        slots-stack_poke 13 top 5 user_entry _ room (omega (arith, room)),
        slots-stack_poke 13 top 4 user_cs _ room (omega (arith, room)),
        slots-stack_poke 13 top 3 user_flags _ room (omega (arith, room)),
        slots-stack_poke 13 top 2 user_sp _ room (omega (arith, room)),
        slots-stack_poke 13 top 1 user_ss mem room (omega (arith, room)),
      )
      refl

-- If the top of the stack lies above its 104 bytes, 13 pops from the KernelStackPtr of a new user
-- thread give zero for r15, r14, r13, r12, rbx and rbp, then the address of user_thread_entry,
-- the argument, and the frame of IRETQ: entry point, USER_CS, USER_FLAGS, user stack and USER_SS.
pub user_stack-pops :
    (top entry user_entry user_sp user_arg : ℕ) (mem : Words)
    → 104 ≤ top
    → let (sp, words) = user_stack top entry user_entry user_sp user_arg mem in
      pops 13 sp words
      ≡ 0 ∷ 0 ∷ 0 ∷ 0 ∷ 0 ∷ 0 ∷ entry ∷ user_arg ∷ user_entry ∷ user_cs ∷ user_flags ∷ user_sp
        ∷ user_ss ∷ []
unfolding user_stack user_words slots put
user_stack-pops top entry user_entry user_sp user_arg mem room =
    let sp : top - 56 - 40 - 8 ≡ top - 13 * 8 = omega arith in
    let m6 : Words = user_words top user_entry user_sp user_arg mem in
    let room' : 13 * 8 ≤ top = omega (arith, room) in
    ap (λ x. pops 13 x (switch_frame top 7 entry m6)) sp
    ∙ pops-slots 13 top (switch_frame top 7 entry m6) room'
    ∙ slots-switch_frame 13 top 7 entry m6 room' room'
    ∙ ap
        (λ xs.
          put 13 13 0
            (put 13 12 0 (put 13 11 0 (put 13 10 0 (put 13 9 0 (put 13 8 0 (put 13 7 entry xs)))))))
        (slots-user_words top user_entry user_sp user_arg mem room')
