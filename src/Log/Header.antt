-- ===== src/Log/Header.antt =====
-- assignment-3/log.c: the header block as `write_head` lays it out and `read_head` reads it.
use cs_1217_operating_system.Base.{
  ℕ, zero, suc, ◌+◌, ◌-◌, ◌<◌, ◌≡◌, ◌&&◌, arith, ltb, leb, if◌then◌else◌, update,
}
use cs_1217_operating_system.Log.{Block, LogHeader, copy_words, head_block}

copy_words_lem :
    (n d s : ℕ) (src dst : ℕ → ℕ) (a : ℕ)
    → copy_words n d s src dst a ≡ (if leb d a && ltb a (d + n) then src (s + (a - d)) else dst a)
unfolding copy_words
copy_words_lem zero d s src dst a = ground arith
copy_words_lem (suc n) d s src dst a =
    ground (arith, copy_words_lem n (d + 1) (s + 1) src (update dst d (src s)) a)

pub head_block_count : (lh : LogHeader) (hdr : Block) → head_block lh hdr 0 ≡ lh.n
unfolding head_block
head_block_count lh hdr = ground (arith, copy_words_lem lh.n 1 0 lh.block (update hdr 0 lh.n) 0)

pub head_block_entry :
    (lh : LogHeader) (hdr : Block) (i : ℕ) → i < lh.n → head_block lh hdr (i + 1) ≡ lh.block i
unfolding head_block
head_block_entry lh hdr i h =
    ground (arith, copy_words_lem lh.n 1 0 lh.block (update hdr 0 lh.n) (i + 1))

pub read_entry :
    (n : ℕ) (hdr old : ℕ → ℕ) (i : ℕ) → i < n → copy_words n 0 1 hdr old i ≡ hdr (i + 1)
read_entry n hdr old i h = ground (arith, copy_words_lem n 0 1 hdr old i)
