-- ===== src/Bio/Tests.antt =====
-- assignment-3/bio.c: runs of the buffer cache.
use cs_1217_operating_system.Base.{ℕ, inl, inr, refl, sym, true, false, Member, arith}
use mathlib.Core.Bool.{true≢false}
use cs_1217_operating_system.Bio.{
  Buf, Cache, Block, set_buf, link_from, binit, bget, bread, bwrite, brelse,
}
use cs_1217_operating_system.Bio.View.{IsCache, set_buf-IsCache, binit-IsCache}
use cs_1217_operating_system.Bio.Get.{GetEnsures, IsFew, bget_lem}
use cs_1217_operating_system.Bio.Read.{ReadEnsures, bread_lem}
use cs_1217_operating_system.Bio.Release.{ReleaseEnsures, brelse_lem}
use cs_1217_operating_system.Bio.Write.{WriteEnsures, bwrite_lem}

-- Each word of a block has the number of the block.
abbrev numbered : ℕ → ℕ → Block
numbered dev n i = n

abbrev blank : Buf
blank = record {
  dev = 0;
  blockno = 0;
  refcnt = 0;
  valid = false;
  dirty = false;
  locked = false;
  contents = λ i. 0;
}

abbrev booted : Cache
booted = binit (λ _. blank) numbered

booted-IsCache : IsCache booted
booted-IsCache = binit-IsCache (λ _. blank) numbered (λ _. (refl, refl, refl))

booted-IsFew : IsFew booted
unfolding binit
booted-IsFew c m = omega arith

bget-booted : GetEnsures 1 7 booted (bget 1 7 booted)
bget-booted = bget_lem 1 7 booted booted-IsFew booted-IsCache

bread_lem_example : ReadEnsures 1 7 booted (bread 1 7 booted)
bread_lem_example = bread_lem 1 7 booted (omega arith) booted-IsFew booted-IsCache

-- A buffer in use, with new contents.
abbrev changed : Buf
changed = record {
  dev = 1;
  blockno = 7;
  refcnt = 1;
  valid = true;
  dirty = true;
  locked = true;
  contents = λ i. 9;
}

abbrev in_use : Cache
in_use = set_buf 28 changed booted

in_use-IsCache : IsCache in_use
unfolding binit
in_use-IsCache =
    set_buf-IsCache booted 28 changed booted-IsCache (λ c dev n ok m ne a b. ok (sym b.0))
      (λ _. refl) (λ _ _ e. elim (true≢false e) [ ])

second : Member 28 in_use.order
unfolding binit link_from
second = inr (inl refl)

bwrite-booted : WriteEnsures 28 in_use (bwrite 28 in_use)
bwrite-booted = bwrite_lem 28 in_use in_use-IsCache second (omega arith) refl

brelse_lem_example : ReleaseEnsures 28 in_use (brelse 28 in_use)
brelse_lem_example =
    brelse_lem 28 in_use in_use-IsCache second (omega arith) (omega arith)
      (λ _ e. elim (true≢false e) [ ])
