-- ===== src/Pipe/Ring.antt =====
-- assignment-3/pipe.c: the array and the two counters hold a list of bytes, also when the counters
-- have wrapped around.
use cs_1217_operating_system.Base.{
  ℕ, zero, suc, ◌+◌, ◌-◌, ◌%◌, ◌^◌, ◌≤◌, ◌<◌, ◌≡◌, ◌≢◌, refl, ap, sym, ◌∙◌, false, List, [], ◌∷◌,
  ◌++◌, arith, update, update_self, update_ne,
}
use mathlib.Core.Path.{ap₂}
use cs_1217_operating_system.Pipe.{Pipe, pipe_size, is_full, is_empty, put, advance}

-- The number of bytes in a pipe: the difference of its counters as `uint`s.
abbrev pub size : Pipe → ℕ
size p = (p.nwrite + 2 ^ 32 - p.nread) % 2 ^ 32

-- The counters are `uint`s at most the size of the array apart.
pub record IsPipe (p : Pipe) : Type 0 where
  pub nread_lt : p.nread < 2 ^ 32
  pub nwrite_lt : p.nwrite < 2 ^ 32
  pub fits : size p ≤ pipe_size

-- The `n` bytes from index `i` on, around the ring.
abbrev pub bytes : (ℕ → ℕ) → ℕ → ℕ → List ℕ
bytes d zero i = []
bytes d (suc n) i = d (i % pipe_size) ∷ bytes d n (i + 1)

-- What a pipe holds, the oldest byte first.
abbrev pub contents : Pipe → List ℕ
contents p = bytes p.data_ (size p) p.nread

bytes_cong : (d : ℕ → ℕ) (n i j : ℕ) → i % pipe_size ≡ j % pipe_size → bytes d n i ≡ bytes d n j
bytes_cong d zero i j h = refl
bytes_cong d (suc n) i j h =
    ap₂ (λ b l. b ∷ l) (ap d h) (bytes_cong d n (i + 1) (j + 1) (omega arith))

bytes_snoc :
    (d : ℕ → ℕ) (n i : ℕ) → bytes d (suc n) i ≡ bytes d n i ++ (d ((i + n) % pipe_size) ∷ [])
bytes_snoc d zero i = let e : i + 0 ≡ i = omega arith in rw e refl
bytes_snoc d (suc n) i =
    let e : i + suc n ≡ i + 1 + n = omega arith in
    rw e (ap (λ l. d (i % pipe_size) ∷ l) (bytes_snoc d n (i + 1)))

-- A store outside the `n` entries from `i` on is not seen.
bytes-update :
    (d : ℕ → ℕ) (n i k b : ℕ)
    → k ≡ (i + n) % pipe_size
    → n < pipe_size
    → (m : ℕ) → m ≤ n
    → bytes (update d k b) m (i + (n - m)) ≡ bytes d m (i + (n - m))
bytes-update d n i k b e h zero le = refl
bytes-update d n i k b e h (suc m) le =
    let s : i + (n - suc m) + 1 ≡ i + (n - m) = omega arith in
    ap₂ (λ x l. x ∷ l)
      (update_ne d k ((i + (n - suc m)) % pipe_size) b (λ same. absurd (omega arith)))
      (ap (bytes (update d k b) m) s
        ∙ bytes-update d n i k b e h m (omega arith)
        ∙ ap (bytes d m) (sym s))

pub size-put :
    (b : ℕ) (p : Pipe)
    → IsPipe p
    → is_full p ≡ false
    → (size (put b p) ≡ suc (size p)) × (size p < pipe_size)
unfolding put
size-put b p h room =
    let a = h.nread_lt in
    let c = h.nwrite_lt in
    let f = h.fits in
    let ne : p.nwrite ≢ (p.nread + 512) % 2 ^ 32 = λ e. absurd (ground (arith)) in
    (omega arith, omega arith)

pub size-advance : (p : Pipe) → IsPipe p → is_empty p ≡ false → size p ≡ suc (size (advance p))
unfolding advance
size-advance p h some_ =
    let a = h.nread_lt in
    let c = h.nwrite_lt in let ne : p.nread ≢ p.nwrite = λ e. absurd (ground (arith)) in omega arith

pub put-IsPipe : (b : ℕ) (p : Pipe) → IsPipe p → is_full p ≡ false → IsPipe (put b p)
unfolding put
put-IsPipe b p h room =
    let (e, lt) = size-put b p h room in
    record { nread_lt = h.nread_lt; nwrite_lt = omega arith; fits = omega arith }

pub advance-IsPipe : (p : Pipe) → IsPipe p → is_empty p ≡ false → IsPipe (advance p)
unfolding advance
advance-IsPipe p h some_ =
    let e = size-advance p h some_ in
    let f = h.fits in record { nread_lt = omega arith; nwrite_lt = h.nwrite_lt; fits = omega arith }

-- A byte put in a pipe that is not full becomes its last.
pub contents-put :
    (b : ℕ) (p : Pipe) → IsPipe p → is_full p ≡ false → contents (put b p) ≡ contents p ++ (b ∷ [])
unfolding put
contents-put b p h room =
    let (e, lt) = size-put b p h room in
    let same : p.nwrite % pipe_size ≡ (p.nread + size p) % pipe_size =
      (let a = h.nread_lt in let c = h.nwrite_lt in omega arith) in
    let k = p.nwrite % pipe_size in
    let z : p.nread + (size p - size p) ≡ p.nread = omega arith in
    ap (λ n. bytes (put b p).data_ n p.nread) e
    ∙ bytes_snoc (put b p).data_ (size p) p.nread
    ∙ ap₂ (λ l x. l ++ (x ∷ []))
        (ap (bytes (update p.data_ k b) (size p)) (sym z)
          ∙ bytes-update p.data_ (size p) p.nread k b same lt (size p) (omega arith)
          ∙ ap (bytes p.data_ (size p)) z)
        (ap (update p.data_ k b) (sym same) ∙ update_self p.data_ k b)

-- Of a pipe that is not empty, the first byte is the one at `nread`, and `advance` leaves the rest.
pub contents-advance :
    (p : Pipe)
    → IsPipe p
    → is_empty p ≡ false
    → contents p ≡ p.data_ (p.nread % pipe_size) ∷ contents (advance p)
unfolding advance
contents-advance p h some_ =
    let e = size-advance p h some_ in
    ap (λ n. bytes p.data_ n p.nread) e
    ∙ ap (λ l. p.data_ (p.nread % pipe_size) ∷ l)
        (bytes_cong p.data_ (size (advance p)) (p.nread + 1) ((p.nread + 1) % 2 ^ 32) (omega arith))
