-- ===== src/Memory.antt =====
-- assignment-3/string.c: the routines on raw memory, with `stosb` and `stosl` of
-- assignment-3/x86.h. Memory is a function from addresses to bytes. An object does not wrap around
-- the end of the address space, so addresses are plain numbers.
pub mod Strings
use Prim.Native.Nat.{bit_or}
use cs_1217_operating_system.Base.{
  ℕ, zero, suc, ◌+◌, ◌-◌, ◌*◌, ◌/◌, ◌%◌, ◌≤◌, ◌<◌, ◌≡◌, ◌⊎◌, refl, Bool, true, ◌&&◌, arith, ltb,
  leb, ◌==◌, if◌then◌else◌, update, ==_iff, ◌∙◌, ◌^◌,
}

abbrev pub Mem : Type 0
Mem = ℕ → ℕ

-- `while(n-- > 0) *d++ = *s++;`
unfoldable pub move_up : ℕ → ℕ → ℕ → Mem → Mem
move_up zero d s m = m
move_up (suc n) d s m = move_up n (d + 1) (s + 1) (update m d (m s))

-- `while(n-- > 0) *--d = *--s;`
unfoldable pub move_down : ℕ → ℕ → ℕ → Mem → Mem
move_down zero d s m = m
move_down (suc n) d s m = move_down n (d - 1) (s - 1) (update m (d - 1) (m (s - 1)))

unfoldable pub memmove : Mem → ℕ → ℕ → ℕ → Mem
unfolding move_up move_down
memmove m dst src n =
    if ltb src dst && ltb dst (src + n)
    then move_down n (dst + n) (src + n) m
    else move_up n dst src m

-- The address lies in the `n` bytes from `p` on.
abbrev pub within : ℕ → ℕ → ℕ → Bool
within p n a = leb p a && ltb a (p + n)

move_up_lem :
    (n d s : ℕ) (m : Mem) (a : ℕ)
    → (d ≤ s) ⊎ (s + n ≤ d)
    → move_up n d s m a ≡ (if within d n a then m (s + (a - d)) else m a)
unfolding move_up
move_up_lem zero d s m a h = ground arith
move_up_lem (suc n) d s m a h = ground (arith, move_up_lem n (d + 1) (s + 1) (update m d (m s)) a)

move_down_lem :
    (n d s : ℕ) (m : Mem) (a de se : ℕ)
    → s < d
    → de ≡ d + n
    → se ≡ s + n
    → move_down n de se m a ≡ (if within d n a then m (s + (a - d)) else m a)
unfolding move_down
move_down_lem zero d s m a de se h p q = ground arith
move_down_lem (suc n) d s m a de se h p q =
    ground (arith, move_down_lem n d s (update m (de - 1) (m (se - 1))) a (de - 1) (se - 1))

-- A copy gives every byte of the destination the byte that the source held before the call, also
-- where the two overlap, and changes no other byte.
pub memmove_lem :
    (m : Mem) (dst src n a : ℕ)
    → memmove m dst src n a ≡ (if within dst n a then m (src + (a - dst)) else m a)
unfolding memmove
memmove_lem m dst src n a =
    ground (arith, move_up_lem n dst src m a, move_down_lem n dst src m a (dst + n) (src + n))

-- `stosb`: the low byte of `c`, `n` times.
unfoldable pub stosb : ℕ → ℕ → ℕ → Mem → Mem
stosb d c zero m = m
stosb d c (suc n) m = stosb (d + 1) c n (update m d (c % 256))

-- The four bytes of a word, the low one first.
abbrev pub store_word : Mem → ℕ → ℕ → Mem
store_word m d w =
    update
      (update (update (update m d (w % 256)) (d + 1) (w / 256 % 256)) (d + 2) (w / 65536 % 256))
      (d + 3) (w / 16777216 % 256)

abbrev pub load_word : Mem → ℕ → ℕ
load_word m a = m a + 256 * m (a + 1) + 65536 * m (a + 2) + 16777216 * m (a + 3)

pub load_word-store_word : (m : Mem) (d w : ℕ) → w < 2 ^ 32 → load_word (store_word m d w) d ≡ w
load_word-store_word m d w small = ground arith

pub store_word_other : (m : Mem) (d w a : ℕ) → (a < d) ⊎ (d + 4 ≤ a) → store_word m d w a ≡ m a
store_word_other m d w a far = ground arith

-- `stosl`: the word `w`, `n` times.
unfoldable pub stosl : ℕ → ℕ → ℕ → Mem → Mem
stosl d w zero m = m
stosl d w (suc n) m = stosl (d + 4) w n (store_word m d w)

-- `(c<<24)|(c<<16)|(c<<8)|c`
abbrev pub repeat_byte : ℕ → ℕ
repeat_byte c = bit_or (bit_or (bit_or (c * 2 ^ 24) (c * 2 ^ 16)) (c * 2 ^ 8)) c

-- `c` is the bit pattern of the `int` argument.
unfoldable pub memset : Mem → ℕ → ℕ → ℕ → Mem
unfolding stosb stosl
memset m dst c n =
    if dst % 4 == 0 && n % 4 == 0
    then stosl dst (repeat_byte (c % 256)) (n / 4) m
    else stosb dst c n m

-- Two functions agree on the numbers less than `k`.
agree : (f g : ℕ → ℕ) (k : ℕ) → Bool
agree f g zero = true
agree f g (suc k) = (f k == g k) && agree f g k

agree_lem : (f g : ℕ → ℕ) (c k : ℕ) → c < k → agree f g k ≡ true → f c ≡ g c
unfolding agree
agree_lem f g c zero lt e = absurd (omega arith)
agree_lem f g c (suc k) lt e = ground (arith, agree_lem f g c k)

bytes_agree : agree repeat_byte (λ c. c * 0x01010101) 256 ≡ true
unfolding agree
bytes_agree = refl

repeat_byte_lem : (c : ℕ) → c < 256 → repeat_byte c ≡ c * 0x01010101
repeat_byte_lem c h = agree_lem repeat_byte (λ c. c * 0x01010101) c 256 h bytes_agree

stosb_lem :
    (n d c : ℕ) (m : Mem) (a : ℕ) → stosb d c n m a ≡ (if within d n a then c % 256 else m a)
unfolding stosb
stosb_lem zero d c m a = ground arith
stosb_lem (suc n) d c m a = ground (arith, stosb_lem n (d + 1) c (update m d (c % 256)) a)

store_word_lem :
    (m : Mem) (d c a : ℕ)
    → c < 256
    → store_word m d (c * 0x01010101) a ≡ (if within d 4 a then c else m a)
store_word_lem m d c a h = ground arith

stosl_lem :
    (n d c : ℕ) (m : Mem) (a : ℕ)
    → c < 256
    → stosl d (c * 0x01010101) n m a ≡ (if within d (n * 4) a then c else m a)
unfolding stosl
stosl_lem zero d c m a h = ground arith
stosl_lem (suc n) d c m a h =
    stosl_lem n (d + 4) c (store_word m d (c * 0x01010101)) a h
    ∙ (rw (store_word_lem m d c a h) (ground arith))

-- A fill stores the low byte of its argument in each of the `n` bytes, in whole words or byte by
-- byte, and changes no other byte.
pub memset_lem :
    (m : Mem) (dst c n a : ℕ) → memset m dst c n a ≡ (if within dst n a then c % 256 else m a)
unfolding memset
memset_lem m dst c n a =
    rw (repeat_byte_lem (c % 256) (omega arith))
      (ground (arith, stosb_lem n dst c m a, stosl_lem (n / 4) dst (c % 256) m a))

-- `memcpy`
unfoldable pub memcpy : Mem → ℕ → ℕ → ℕ → Mem
unfolding memmove
memcpy m dst src n = memmove m dst src n
