-- ===== src/Vm/Tests.antt =====
-- assignment-3/vm.c: runs of `mappages`.
use cs_1217_operating_system.Base.{ℕ, ◌≡◌, refl, sym, ap, false, List, [], ◌∷◌, arith}
use mathlib.Core.Bool.{true≢false}
use cs_1217_operating_system.Kalloc.{Kmem}
use cs_1217_operating_system.Vm.{mappages}
use cs_1217_operating_system.Vm.Page.{MapEnsures, IsRoomy, uva2ka-mappages}

-- A directory at the second page of physical memory, and the third page free
abbrev fresh : Kmem
fresh = record { use_lock = false; freelist = 2147491840 ∷ []; memory = λ a. 0 }

abbrev head : List ℕ → ℕ
head [] = 0
head (v ∷ rest) = v

fresh-IsRoomy : IsRoomy 2147487744 4096 fresh
fresh-IsRoomy = record {
  table = λ p. absurd (true≢false (sym p));
  free = λ v rest e.
      let same : 2147491840 ≡ v = ap head e in
      (omega (arith, same), omega (arith, same), omega (arith, same), λ z. omega (arith, same, z));
}

uva2ka-mappages_example :
    MapEnsures 2147487744 4096 8192 6 fresh (mappages 2147487744 4096 4096 8192 6 fresh)
uva2ka-mappages_example =
    uva2ka-mappages 2147487744 4096 8192 6 fresh refl refl (omega arith) (omega arith) fresh-IsRoomy
      refl (omega arith)
