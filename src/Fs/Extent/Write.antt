-- ===== src/Fs/Extent/Write.antt =====
-- assignment-3/fs.c: the loop of `writei` on an inode that owns its blocks.
use cs_1217_operating_system.Base.{
  ℕ, ◌+◌, ◌-◌, ◌*◌, ◌/◌, ◌%◌, ◌≡◌, ◌≢◌, ◌<◌, ◌≤◌, refl, sym, ap, ◌∙◌, dec_lt, ℕ_discrete, arith,
}
use cs_1217_operating_system.Fs.{Fs, set_block}
use cs_1217_operating_system.Fs.Bytes.{Bytes}
use cs_1217_operating_system.Fs.Allocation.{block_ne}
use cs_1217_operating_system.Fs.Data.{splice}
use cs_1217_operating_system.Fs.Extent.{indirect_at}
use cs_1217_operating_system.Fs.Extent.Growth.{home, IsFile, IsReserved, SameInode}
use cs_1217_operating_system.Fs.Extent.Find.{Kept, SameInode-trans}
use cs_1217_operating_system.Fs.Extent.Store

-- How many free blocks a write may take: two for each block that it touches.
abbrev pub need : ℕ → ℕ → ℕ
need off left = 2 * ((off % 512 + left + 511) / 512)

-- The bytes that a file can have
abbrev pub max_size : ℕ
max_size = 71680

pub splice_in :
    (bytes : Bytes) (at : ℕ) (src : Bytes) (m i : ℕ)
    → at ≤ i
    → i < at + m
    → splice bytes at src m i ≡ src (i - at)
splice_in bytes at src m i lo hi = ground arith

pub splice_out :
    (bytes : Bytes) (at : ℕ) (src : Bytes) (m i : ℕ)
    → ¬ ((at ≤ i) × (i < at + m))
    → splice bytes at src m i ≡ bytes i
splice_out bytes at src m i out = ground arith

module _ (dev p : ℕ) where
  -- The byte of the inode's contents at an offset
  abbrev pub byte : Fs → ℕ → ℕ
  byte s i = s.block dev (home dev p s (i / 512)) (i % 512)

  -- The bytes from `off` on, `left` of them, have been written from `src`, and no other byte that the inode had.
  pub record Wrote (src : Bytes) (off left : ℕ) (s s' : Fs) : Type 0 where
    pub file : IsFile dev p s'
    pub homes : (k : ℕ) → k < indirect_at → home dev p s k ≢ 0 → home dev p s' k ≡ home dev p s k
    pub owned : (i : ℕ) → off ≤ i → i < off + left → home dev p s' (i / 512) ≢ 0
    pub written : (i : ℕ) → off ≤ i → i < off + left → byte s' i ≡ src (i - off)
    pub others :
        (i : ℕ)
        → i < max_size
        → home dev p s (i / 512) ≢ 0
        → ¬ ((off ≤ i) × (i < off + left))
        → byte s' i ≡ byte s i
    pub same_inode : SameInode dev p s s'
    pub same_sb : s'.sb ≡ s.sb
    pub reserved : (b : ℕ) → IsReserved dev p b s → IsReserved dev p b s'
    pub frame : (b : ℕ) → IsReserved dev p b s → s'.block dev b ≡ s.block dev b

  -- Nothing to write
  pub Wrote-none : (src : Bytes) (off : ℕ) (s : Fs) → IsFile dev p s → Wrote src off 0 s s
  Wrote-none src off s f = record {
    file = f;
    homes = λ k h ne. refl;
    owned = λ i lo hi. absurd (omega arith);
    written = λ i lo hi. absurd (omega arith);
    others = λ i h ne out. refl;
    same_inode = record { same_dev = refl; same_inum = refl; same_type = refl; same_size = refl };
    same_sb = refl;
    reserved = λ b r. r;
    frame = λ b r. refl;
  }

  -- A chunk in one block
  module _ (src : Bytes) (off c : ℕ) (s s1 : Fs) (f : IsFile dev p s1)
      (ne : home dev p s1 (off / 512) ≢ 0) (kept : Kept dev p 2 s s1) (fits : off % 512 + c ≤ 512)
      (room : off + c ≤ max_size) (lt : off / 512 < indirect_at) where
    abbrev block_at : ℕ
    block_at = home dev p s1 (off / 512)

    abbrev bytes : Bytes
    bytes = splice (s1.block dev block_at) (off % 512) src c

    abbrev pub chunked : Fs
    chunked = set_block dev block_at bytes s1

    homes2 : (k : ℕ) → home dev p chunked k ≡ home dev p s1 k
    homes2 = Store.stored_homes dev p (off / 512) bytes s1 f lt ne

    byte_here : (i : ℕ) → i / 512 ≡ off / 512 → byte chunked i ≡ bytes (i % 512)
    byte_here i e =
        ap (λ b. chunked.block dev b (i % 512)) (homes2 (i / 512) ∙ ap (home dev p s1) e)
        ∙ ap (λ m. m (i % 512)) (Store.stored_self dev p (off / 512) bytes s1 f lt ne)

    byte_there :
        (i : ℕ)
        → i / 512 ≤ indirect_at
        → i / 512 ≢ off / 512
        → home dev p s1 (i / 512) ≢ 0
        → byte chunked i ≡ byte s1 i
    byte_there i h far nz =
        ap (λ b. chunked.block dev b (i % 512)) (homes2 (i / 512))
        ∙ ap (λ m. m (i % 512))
            (Store.stored_other dev p (off / 512) bytes s1 f lt ne (i / 512) h far nz)

    kept_byte : (i : ℕ) → i < max_size → home dev p s (i / 512) ≢ 0 → byte s1 i ≡ byte s i
    kept_byte i h nz =
        ap (λ b. s1.block dev b (i % 512)) (kept.homes (i / 512) (omega arith) nz)
        ∙ ap (λ m. m (i % 512)) (kept.contents (i / 512) (omega arith) nz)

    other_byte :
        (i : ℕ)
        → i < max_size
        → home dev p s1 (i / 512) ≢ 0
        → ¬ ((off ≤ i) × (i < off + c))
        → byte chunked i ≡ byte s1 i
    other_byte i h nz out = elim (ℕ_discrete (i / 512) (off / 512)) [
      | no far ↦ byte_there i (omega arith) far nz
      | yes e ↦
          byte_here i e
          ∙ splice_out (s1.block dev block_at) (off % 512) src c (i % 512)
              (λ x. out (omega arith, omega arith))
          ∙ ap (λ k. s1.block dev (home dev p s1 k) (i % 512)) (sym e)
    ]

    pub chunk-Wrote : Wrote src off c s chunked
    chunk-Wrote = record {
      file = Store.stored-IsFile dev p (off / 512) bytes s1 f lt ne;
      homes = λ k h nz. homes2 k ∙ kept.homes k (omega arith) nz;
      owned = λ i lo hi z.
          let e : i / 512 ≡ off / 512 = omega arith in
          ne (sym (ap (home dev p s1) e) ∙ sym (homes2 (i / 512)) ∙ z);
      written = λ i lo hi.
          let place : i % 512 - off % 512 ≡ i - off = omega arith in
          byte_here i (omega arith)
          ∙ splice_in (s1.block dev block_at) (off % 512) src c (i % 512) (omega arith)
              (omega arith)
          ∙ ap src place;
      others = λ i h nz out.
          other_byte i h (λ z. nz (sym (kept.homes (i / 512) (omega arith) nz) ∙ z)) out
          ∙ kept_byte i h nz;
      same_inode = record {
        same_dev = kept.same_inode.same_dev;
        same_inum = kept.same_inode.same_inum;
        same_type = kept.same_inode.same_type;
        same_size = kept.same_inode.same_size;
      };
      same_sb = kept.same_sb;
      reserved =
          λ b r. Store.stored-IsReserved dev p (off / 512) bytes s1 f lt ne b (kept.reserved b r);
      frame = λ b r.
          block_ne dev block_at bytes s1 b
            (λ e. (kept.reserved b r).apart (off / 512) (omega arith) (sym e))
          ∙ kept.frame b r;
    }

  -- One write, and another behind it
  pub Wrote-trans :
      (src : Bytes) (off c left : ℕ) (s s' s'' : Fs)
      → off + c + left ≤ max_size
      → Wrote src off c s s'
      → Wrote (λ i. src (c + i)) (off + c) left s' s''
      → Wrote src off (c + left) s s''
  Wrote-trans src off c left s s' s'' room a b = record {
    file = b.file;
    homes = λ k h nz. b.homes k h (λ z. nz (sym (a.homes k h nz) ∙ z)) ∙ a.homes k h nz;
    owned = λ i lo hi. elim (dec_lt i (off + c)) [
      | yes first ↦
          let nz = a.owned i lo first in λ z. nz (sym (b.homes (i / 512) (omega arith) nz) ∙ z)
      | no later ↦ b.owned i (omega arith) (omega arith)
    ];
    written = λ i lo hi. elim (dec_lt i (off + c)) [
      | yes first ↦
          b.others i (omega arith) (a.owned i lo first) (λ x. omega arith) ∙ a.written i lo first
      | no later ↦
          let place : c + (i - (off + c)) ≡ i - off = omega arith in
          b.written i (omega arith) (omega arith) ∙ ap src place
    ];
    others = λ i h nz out.
        b.others i h (λ z. nz (sym (a.homes (i / 512) (omega arith) nz) ∙ z))
          (λ x. out (omega arith, omega arith))
        ∙ a.others i h nz (λ x. out (omega arith, omega arith));
    same_inode = SameInode-trans dev p s s' s'' a.same_inode b.same_inode;
    same_sb = b.same_sb ∙ a.same_sb;
    reserved = λ x r. b.reserved x (a.reserved x r);
    frame = λ x r. b.frame x (a.reserved x r) ∙ a.frame x r;
  }
