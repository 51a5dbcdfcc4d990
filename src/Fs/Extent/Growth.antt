-- ===== src/Fs/Extent/Growth.antt =====
-- assignment-3/fs.c: an inode that owns its blocks, and one that gets a new block.
use cs_1217_operating_system.Base.{
  ℕ, ◌+◌, ◌^◌, ◌≡◌, ◌≢◌, ◌<◌, ◌≤◌, sym, ap, subst, ◌∙◌, true, false, ◌==◌, if◌then◌else◌,
  ℕ_discrete, ==_refl, ne→false, arith,
}
use mathlib.Core.Bool.{true≢false}
use cs_1217_operating_system.Fs.{Fs, Super}
use cs_1217_operating_system.Fs.Bytes.{bblock}
use cs_1217_operating_system.Fs.Allocation.{is_free, IsApart}
use cs_1217_operating_system.Fs.Owned.{IsMade}
use cs_1217_operating_system.Fs.Extent.{home_of, indirect_at}
use cs_1217_operating_system.Base.Counting.{tally, tally-without}
use cs_1217_operating_system.Fs.Extent.Supply.{supply}

module _ (dev p : ℕ) where
  -- The block at a place of the inode
  abbrev pub home : Fs → ℕ → ℕ
  home s k = home_of (s.inode p).addrs (s.block dev) k

  -- The blocks of the inode are in use, are not those of the free map, and no block stands at two places.
  pub record IsFile (s : Fs) : Type 0 where
    pub on : (s.inode p).dev ≡ dev
    pub made : IsMade dev s
    pub words : s.sb.size < 2 ^ 32
    pub within : (k : ℕ) → k ≤ indirect_at → home s k ≢ 0 → home s k < s.sb.size
    pub used : (k : ℕ) → k ≤ indirect_at → home s k ≢ 0 → is_free s dev (home s k) ≡ false
    pub off_map :
        (k c : ℕ) → k ≤ indirect_at → home s k ≢ 0 → c < s.sb.size → bblock c s.sb ≢ home s k
    pub single :
        (j k : ℕ) → j ≤ indirect_at → k ≤ indirect_at → home s j ≢ 0 → home s j ≡ home s k → j ≡ k

  -- What the inode holds beside its blocks is the same.
  pub record SameInode (s s' : Fs) : Type 0 where
    pub same_dev : (s'.inode p).dev ≡ (s.inode p).dev
    pub same_inum : (s'.inode p).inum ≡ (s.inode p).inum
    pub same_type : (s'.inode p).type_ ≡ (s.inode p).type_
    pub same_size : (s'.inode p).size ≡ (s.inode p).size

  -- A block that the inode does not have and never gets: it is in use, outside the free map.
  pub record IsReserved (b : ℕ) (s : Fs) : Type 0 where
    pub within : b < s.sb.size
    pub used : is_free s dev b ≡ false
    pub off_map : (c : ℕ) → c < s.sb.size → bblock c s.sb ≢ b
    pub apart : (k : ℕ) → k ≤ indirect_at → home s k ≢ b

  -- Block `n`, free so far, stands at the place `at`, which was empty, and nothing else of the inode changes.
  pub record Grown (at n : ℕ) (s s' : Fs) : Type 0 where
    pub homes : (k : ℕ) → k ≤ indirect_at → home s' k ≡ (if k == at then n else home s k)
    pub empty : home s at ≡ 0
    pub small : n < s.sb.size
    pub was_free : is_free s dev n ≡ true
    pub now_used : is_free s' dev n ≡ false
    pub frees : (c : ℕ) → c < s.sb.size → c ≢ n → is_free s' dev c ≡ is_free s dev c
    pub contents :
        (k : ℕ) → k < indirect_at → home s k ≢ 0 → s'.block dev (home s k) ≡ s.block dev (home s k)
    pub frame : (b : ℕ) → IsReserved b s → s'.block dev b ≡ s.block dev b
    pub same_sb : s'.sb ≡ s.sb
    pub same_inode : SameInode s s'

  module _ (at n : ℕ) (s s' : Fs) (f : IsFile s) (g : Grown at n s s') where
    back : (c : ℕ) → c < s'.sb.size → c < s.sb.size
    back c h = subst (λ (x : Super). c < x.size) g.same_sb h

    forth : (c : ℕ) → c < s.sb.size → c < s'.sb.size
    forth c h = subst (λ (x : Super). c < x.size) (sym g.same_sb) h

    pub nonzero : n ≢ 0
    nonzero e = true≢false (sym g.was_free ∙ ap (is_free s dev) e ∙ f.made.boot)

    -- A block that the inode had is not the new one.
    old-ne-new : (k : ℕ) → k ≤ indirect_at → home s k ≢ 0 → home s k ≢ n
    old-ne-new k h ne e = true≢false (sym g.was_free ∙ sym (ap (is_free s dev) e) ∙ f.used k h ne)

    pub home_at : (k : ℕ) → k ≤ indirect_at → k ≡ at → home s' k ≡ n
    home_at k h e =
        g.homes k h ∙ ap (λ t. if t then n else home s k) (ap (λ x. x == at) e ∙ ==_refl at)

    pub home_ne : (k : ℕ) → k ≤ indirect_at → k ≢ at → home s' k ≡ home s k
    home_ne k h ne = g.homes k h ∙ ap (λ t. if t then n else home s k) (ne→false k at ne)

    -- What holds of the new block and of the old ones holds of each block.
    each :
        (P : ℕ → Type 0)
        → P n
        → ((k : ℕ) → k ≤ indirect_at → home s k ≢ 0 → P (home s k))
        → (k : ℕ) → k ≤ indirect_at
        → home s' k ≢ 0
        → P (home s' k)
    each P new old k h ne = elim (ℕ_discrete k at) [
      | yes e ↦ subst P (sym (home_at k h e)) new
      | no na ↦ subst P (sym (home_ne k h na)) (old k h (λ z. ne (home_ne k h na ∙ z)))
    ]

    still-IsApart : IsApart dev s'
    still-IsApart b c kb kc free e = elim (ℕ_discrete b n) [
      | yes same ↦ true≢false (sym free ∙ ap (is_free s' dev) same ∙ g.now_used)
      | no ne ↦
          f.made.apart b c (back b kb) (back c kc) (sym (g.frees b (back b kb) ne) ∙ free)
            (ap (bblock c) (sym g.same_sb) ∙ e)
    ]

    still_single :
        (j k : ℕ)
        → j ≤ indirect_at
        → k ≤ indirect_at
        → home s' j ≢ 0
        → home s' j ≡ home s' k
        → j ≡ k
    still_single j k hj hk ne e = elim (ℕ_discrete j at) [
      | yes ej ↦ elim (ℕ_discrete k at) [
        | yes ek ↦ ej ∙ sym ek
        | no nk ↦
            let same : home s k ≡ n = sym (home_ne k hk nk) ∙ sym e ∙ home_at j hj ej in
            absurd (old-ne-new k hk (λ z. nonzero (sym same ∙ z)) same)
      ]
      | no nj ↦
          let old : home s j ≢ 0 = (λ z. ne (home_ne j hj nj ∙ z)) in
          elim (ℕ_discrete k at) [
            | yes ek ↦ absurd (old-ne-new j hj old (sym (home_ne j hj nj) ∙ e ∙ home_at k hk ek))
            | no nk ↦ f.single j k hj hk old (sym (home_ne j hj nj) ∙ e ∙ home_ne k hk nk)
          ]
    ]

    pub Grown-IsFile : IsFile s'
    Grown-IsFile = record {
      on = g.same_inode.same_dev ∙ f.on;
      made = record {
        apart = still-IsApart;
        boot = g.frees 0 (omega (arith, g.small)) (λ e. nonzero (sym e)) ∙ f.made.boot;
      };
      words = subst (λ (x : Super). x.size < 2 ^ 32) (sym g.same_sb) f.words;
      within =
          each (λ b. b < s'.sb.size) (forth n g.small)
            (λ k h ne. forth (home s k) (f.within k h ne));
      used =
          each (λ b. is_free s' dev b ≡ false) g.now_used
            (λ k h ne. g.frees (home s k) (f.within k h ne) (old-ne-new k h ne) ∙ f.used k h ne);
      off_map = λ k c h ne kc.
          each (λ b. bblock c s'.sb ≢ b)
            (λ e.
              f.made.apart n c g.small (back c kc) g.was_free (ap (bblock c) (sym g.same_sb) ∙ e))
            (λ j hj nj e. f.off_map j c hj nj (back c kc) (ap (bblock c) (sym g.same_sb) ∙ e)) k h
            ne;
      single = still_single;
    }

    pub Grown-IsReserved : (b : ℕ) → IsReserved b s → IsReserved b s'
    Grown-IsReserved b r =
        let other : b ≢ n =
          (λ e. true≢false (sym g.was_free ∙ sym (ap (is_free s dev) e) ∙ r.used)) in
        record {
          within = forth b r.within;
          used = g.frees b r.within other ∙ r.used;
          off_map = λ c kc e. r.off_map c (back c kc) (ap (bblock c) (sym g.same_sb) ∙ e);
          apart = λ k h e. elim (ℕ_discrete k at) [
            | yes x ↦ other (sym e ∙ home_at k h x)
            | no x ↦ r.apart k h (sym (home_ne k h x) ∙ e)
          ];
        }

    pub Grown-supply : supply dev s ≡ supply dev s' + 1
    Grown-supply =
        let one =
          tally-without (is_free s dev) (is_free s' dev) n s.sb.size g.was_free g.now_used
            g.frees in
        let same : tally (is_free s' dev) s'.sb.size ≡ tally (is_free s' dev) s.sb.size =
          ap (λ (x : Super). tally (is_free s' dev) x.size) g.same_sb in
        let low = g.small in ground (arith, one, same)
