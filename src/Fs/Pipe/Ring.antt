-- ===== src/Fs/Pipe/Ring.antt =====
-- The page of a pipe as a ring: what it holds, and how a chunk leaves and enters it.
use linux_0_11_read.Prelude.{
  ℕ, zero, suc, ◌+◌, ◌%◌, ◌≤◌, ◌<◌, ◌≡◌, refl, ◌∙◌, ap, List, [], ◌∷◌, ◌++◌, arith, get_or, set,
  length, length-set, get_or-set_self, get_or-set_ne, add-zero, append-nil, append_assoc,
}
use linux_0_11_read.Fs.Pipe.{Pipe, page_size, pipe_size, chunk, fill}

-- The `n` bytes from place `i` on, going round at the end of the page.
unfoldable pub held : List ℕ → ℕ → ℕ → List ℕ
held page i zero = []
held page i (suc n) = get_or page i 0 ∷ held page ((i + 1) % 4096) n

-- The bytes in the pipe, the oldest first.
abbrev pub contents : Pipe → List ℕ
contents p = held p.page p.tail (pipe_size p)

pub record IsPipe (p : Pipe) : Type 0 where
  pub page_of : length p.page ≡ page_size
  pub head_in : p.head < page_size
  pub tail_in : p.tail < page_size

pub length-held : (page : List ℕ) (i n : ℕ) → length (held page i n) ≡ n
unfolding held
length-held page i zero = refl
length-held page i (suc n) = ap suc (length-held page ((i + 1) % 4096) n)

-- A chunk that does not pass the end of the page is the front of what is held.
pub held-chunk :
    (page : List ℕ) (i n m : ℕ)
    → i + n ≤ page_size
    → held page (i % 4096) (n + m) ≡ chunk page i n ++ held page ((i + n) % 4096) m
unfolding held chunk
held-chunk page i zero m le =
    let e : 0 + m ≡ m = omega arith in let f : i + 0 ≡ i = omega arith in rw (e, f) refl
held-chunk page i (suc n) m le =
    let e : suc n + m ≡ suc (n + m) = omega arith in
    let here : i % 4096 ≡ i = omega arith in
    let f : i + 1 + n ≡ i + suc n = omega arith in
    rw (e, here)
      (ap (λ (l : List ℕ). get_or page i 0 ∷ l)
        (rw f at (held-chunk page (i + 1) n m (omega arith))))

pub length-fill :
    (page : List ℕ) (i : ℕ) (bytes : List ℕ) → length (fill page i bytes) ≡ length page
unfolding fill
length-fill page i [] = refl
length-fill page i (b ∷ bytes) = length-fill (set page i b) (i + 1) bytes ∙ length-set page i b

-- A byte put behind what is held joins it.
held-snoc :
    (page : List ℕ) (i n k b : ℕ)
    → length page ≡ page_size
    → i < page_size
    → n < page_size
    → k ≡ (i + n) % 4096
    → held (set page k b) i (suc n) ≡ held page i n ++ b ∷ []
unfolding held
held-snoc page i zero k b size lt small e =
    let at_i : k ≡ i = omega arith in
    rw (at_i, get_or-set_self page i b 0 (omega (arith, size))) refl
held-snoc page i (suc n) k b size lt small e = rw (get_or-set_ne page k i b 0 (omega arith)) (
    ap (λ (l : List ℕ). get_or page i 0 ∷ l)
      (held-snoc page ((i + 1) % 4096) n k b size (omega arith) (omega arith) (omega arith)))

-- So do the bytes of `fill`, if they fit and do not pass the end of the page.
pub held-fill :
    (bytes : List ℕ) (page : List ℕ) (i n k : ℕ)
    → length page ≡ page_size
    → i < page_size
    → n + length bytes < page_size
    → k + length bytes ≤ page_size
    → k % 4096 ≡ (i + n) % 4096
    → held (fill page k bytes) i (n + length bytes) ≡ held page i n ++ bytes
unfolding fill
held-fill [] page i n k size lt fits le e = rw (add-zero n, append-nil) refl
held-fill (b ∷ bytes) page i n k size lt fits le e =
    let more : n + suc (length bytes) ≡ suc n + length bytes = omega arith in
    rw more (
      held-fill bytes (set page k b) i (suc n) (k + 1) (length-set page k b ∙ size) lt (omega arith)
        (omega arith) (omega arith)
      ∙ ap (λ (l : List ℕ). l ++ bytes) (held-snoc page i n k b size lt (omega arith) (omega arith))
      ∙ append_assoc (held page i n) (b ∷ []) bytes)

pub length-chunk : (page : List ℕ) (i n : ℕ) → length (chunk page i n) ≡ n
unfolding chunk
length-chunk page i zero = refl
length-chunk page i (suc n) = ap suc (length-chunk page (i + 1) n)
