-- ===== src/Ldr/Modules.antt =====
-- The registry of modules: which module a name leads to.
use micro_nt.Base.{
  ℕ, ◌<◌, ◌≡◌, refl, ap, ◌∙◌, inl, inr, true, false, none, some, List, [], ◌∷◌, ◌++◌, length, take,
  leb, if◌then◌else◌, arith, Bool-cases, take-all,
}
use micro_nt.Ldr.{Image, Module, max_modules, name_eq, register_module, find_module}

pub name_eq_self : (xs : List ℕ) → name_eq xs xs ≡ true
unfolding name_eq
name_eq_self [] = refl
name_eq_self (x ∷ xs) = ground (arith, name_eq_self xs)

find_module-append :
    (name : List ℕ) (ms : List Module) (m : Module)
    → find_module name (ms ++ m ∷ []) ≡ (elim (find_module name ms) [
      | none ↦ if name_eq m.name name then some m else none
      | some k ↦ some k
    ])
unfolding find_module
find_module-append name [] m = refl
find_module-append name (k ∷ ms) m = elim (Bool-cases (name_eq k.name name)) [
  | inl here ↦ rw here refl
  | inr later ↦ rw later (find_module-append name ms m)
]

-- If the registry has fewer than 64 modules and the name fewer than 32 bytes, then after
-- RegisterModule FindModule gives the module that had the name before, if there was one, and the
-- new module otherwise.
pub find_module-register_module :
    (name : List ℕ) (base : ℕ) (image : Image) (size : ℕ) (ms : List Module)
    → length ms < max_modules
    → length name < 32
    → find_module name (register_module name base image size ms) ≡ (elim (find_module name ms) [
      | none ↦ some (record { name = name; image_base = base; pe_data = image; pe_size = size })
      | some k ↦ some k
    ])
unfolding register_module
find_module-register_module name base image size ms room short =
    let m : Module = record { name = name; image_base = base; pe_data = image; pe_size = size } in
    let open_slot : leb max_modules (length ms) ≡ false = ground (arith, room) in
    let whole : take 31 name ≡ name = take-all 31 name (omega (arith, short)) in
    rw (open_slot, whole)
      (find_module-append name ms m
        ∙ ap
            (λ b. elim (find_module name ms) [
              | none ↦ if b then some m else none
              | some k ↦ some k
            ])
            (name_eq_self name))
