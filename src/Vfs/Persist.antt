-- ===== src/Vfs/Persist.antt =====
-- SaveNVRAM and LoadNVRAM over the firmware's variable.
use micro_nt.Base.{
  ℕ, zero, suc, ◌≡◌, refl, ap, ◌≢◌, true, some, List, [], ◌∷◌, ◌==◌, ne→==, eq→==, arith, length,
  replicate, Bool-cases, inl, inr,
}
use micro_nt.BootInfo.{BootInfo}
use micro_nt.Vfs.{
  WNode, Vfs, Firmware, NvramHeader, blank, wnode_max, nvram_magic, restore, load_nvram, init,
  save_nvram,
}

restore-all :
    (n : ℕ) (from to : List WNode) → length from ≡ n → length to ≡ n → restore n from to ≡ from
unfolding restore
restore-all zero [] [] e f = refl
restore-all zero (x ∷ from) to e f = absurd (omega arith)
restore-all zero [] (y ∷ to) e f = absurd (omega arith)
restore-all (suc n) [] to e f = absurd (omega arith)
restore-all (suc n) (x ∷ from) [] e f = absurd (omega arith)
restore-all (suc n) (x ∷ from) (y ∷ to) e f =
    ap (λ t. x ∷ t) (restore-all n from to (omega arith) (omega arith))

module _ (fw : Firmware) where
  -- A header of sixteen nodes is taken as it is.
  pub init-load :
      (bi : BootInfo) (s : fw.Store) (hdr : NvramHeader)
      → bi.efi_runtime_va ≢ 0
      → fw.get s ≡ some hdr
      → hdr.magic ≡ nvram_magic
      → hdr.count ≡ wnode_max
      → length hdr.nodes ≡ wnode_max
      → (init fw (some bi) s).wnodes ≡ hdr.nodes
  unfolding init load_nvram
  init-load bi s hdr va stored magic count nodes =
      rw (ne→== _ 0 va, init, load_nvram)
        (rw (stored, load_nvram)
          (rw (eq→== _ _ magic, count)
            (restore-all wnode_max hdr.nodes (replicate wnode_max blank) nodes refl)))

  -- If runtime services are there and the table has its sixteen nodes, the table that a
  -- successful SaveNVRAM stored is the table after the next Init.
  pub init-save_nvram :
      (bi : BootInfo) (v : Vfs) (s : fw.Store)
      → bi.efi_runtime_va ≢ 0
      → length v.wnodes ≡ wnode_max
      → (save_nvram fw v s).1 ≡ true
      → (init fw (some bi) (save_nvram fw v s).0).wnodes ≡ v.wnodes
  unfolding save_nvram
  init-save_nvram bi v s va full saved = elim (Bool-cases (v.rt_va == 0)) [
    | inl absent ↦ absurd (ground arith)
    | inr present ↦
        let hdr : NvramHeader = record {
          magic = nvram_magic;
          count = wnode_max;
          nodes = v.wnodes;
        } in
        let done : (fw.set_var hdr s).1 ≡ true = rw (present, save_nvram) at saved in
        rw (present, save_nvram) (init-load bi _ hdr va (fw.get-set hdr s done) refl refl full)
  ]
