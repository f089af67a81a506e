-- ===== src/Ntdef/Tests.antt =====
-- `AlignUp` and `AlignDown` at a page.
use micro_nt.Base.{◌≡◌, refl}
use micro_nt.Ntdef.{align_up, align_down}

align_up_runs : align_up 0x1001 0x1000 ≡ 0x2000
unfolding align_up
align_up_runs = refl

align_down_runs : align_down 0x1fff 0x1000 ≡ 0x1000
unfolding align_down
align_down_runs = refl
