-- ===== src/Chr/Terminal/Ring.antt =====
-- A queue as a list of characters.
use linux_0_11_read.Prelude.{
  ℕ, zero, suc, ◌+◌, ◌-◌, ◌%◌, ◌≤◌, ◌<◌, ◌≡◌, refl, ap, List, [], ◌∷◌, length, true, false, arith,
}
use linux_0_11_read.Chr.Terminal.{
  Queue, inc, dec, is_empty, last, is_full, chars, put_at, putch, drop_last, getch,
}

pub record IsQueue (q : Queue) : Type 0 where
  pub head_in : q.head < 1024
  pub tail_in : q.tail < 1024

-- The `n` characters before `head`, the newest first.
unfoldable pub newest : ℕ → ℕ → (ℕ → ℕ) → List ℕ
newest zero head buf = []
newest (suc n) head buf = buf (dec head) ∷ newest n (dec head) buf

abbrev pub contents : Queue → List ℕ
contents q = newest (chars q) q.head q.buf

-- The same characters, the oldest first.
unfoldable pub oldest : ℕ → ℕ → (ℕ → ℕ) → List ℕ
oldest zero tail buf = []
oldest (suc n) tail buf = buf tail ∷ oldest n (inc tail) buf

abbrev pub waiting : Queue → List ℕ
waiting q = oldest (chars q) q.tail q.buf

pub length-newest : (n head : ℕ) (buf : ℕ → ℕ) → length (newest n head buf) ≡ n
unfolding newest
length-newest zero head buf = refl
length-newest (suc n) head buf = ap suc (length-newest n (dec head) buf)

newest-put_at :
    (n head i c : ℕ) (buf : ℕ → ℕ)
    → i < 1024
    → head < 1024
    → n ≤ (head + 1023 - i) % 1024
    → newest n head (put_at buf i c) ≡ newest n head buf
unfolding newest
newest-put_at zero head i c buf hi hh h = refl
newest-put_at (suc n) head i c buf hi hh h =
    ground (arith, hi, hh, h, newest-put_at n (dec head) i c buf)

pub chars-lt : (q : Queue) → chars q < 1024
chars-lt q = omega arith

pub chars-putch :
    (c : ℕ) (q : Queue) → IsQueue q → is_full q ≡ false → chars (putch c q) ≡ suc (chars q)
chars-putch c q v h = ground (arith, v, h)

pub contents-putch :
    (c : ℕ) (q : Queue) → IsQueue q → is_full q ≡ false → contents (putch c q) ≡ c ∷ contents q
unfolding newest
contents-putch c q v h =
    rw (chars-putch c q v h)
      (ground (arith, v, back, newest-put_at (chars q) q.head q.head c q.buf))
  where
    back : dec (inc q.head) ≡ q.head
    back = omega (arith, v.head_in)

pub chars-drop_last :
    (q : Queue) → IsQueue q → is_empty q ≡ false → chars q ≡ suc (chars (drop_last q))
chars-drop_last q v h = ground (arith, v, h)

pub contents-drop_last :
    (q : Queue) → IsQueue q → is_empty q ≡ false → contents q ≡ last q ∷ contents (drop_last q)
unfolding newest
contents-drop_last q v h = rw (chars-drop_last q v h) refl

pub contents_empty : (q : Queue) → is_empty q ≡ true → contents q ≡ []
unfolding newest
contents_empty q h = rw none_left refl
  where
    none_left : chars q ≡ 0
    none_left = ground (arith, h)

pub chars-getch : (q : Queue) → IsQueue q → is_empty q ≡ false → chars q ≡ suc (chars (getch q).1)
chars-getch q v h = ground (arith, v, h)

pub room : (q : Queue) → IsQueue q → chars q < 1023 → is_full q ≡ false
room q v h = ground (arith, v, h)

pub chars-empty : (q : Queue) → is_empty q ≡ true → chars q ≡ 0
chars-empty q h = ground (arith, h)

pub waiting-getch :
    (q : Queue) → IsQueue q → is_empty q ≡ false → waiting q ≡ (getch q).0 ∷ waiting (getch q).1
unfolding oldest
waiting-getch q v h = rw (chars-getch q v h) refl

pub getch-IsQueue : (q : Queue) → IsQueue q → IsQueue (getch q).1
getch-IsQueue q v = record { head_in = v.head_in; tail_in = omega arith }
