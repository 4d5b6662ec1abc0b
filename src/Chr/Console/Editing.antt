-- ===== src/Chr/Console/Editing.antt =====
-- The sequences that erase and shift keep the layout.
use linux_0_11_read.Prelude.{
  ℕ, zero, suc, ◌+◌, ◌-◌, ◌*◌, ◌/◌, ◌^◌, ◌≤◌, ◌<◌, ◌≡◌, ◌⊎◌, inl, inr, refl, arith, ◌==◌, leb,
  sub32, mul32, Bool-cases,
}
use linux_0_11_read.Chr.Console.{Console, fill, store, erase, save_cur}
use linux_0_11_read.Chr.Console.Edit.{
  csi_J, csi_K, csi_m, shift_right, insert_char, shift_left, delete_char, insert_line, delete_line,
  repeat, rounds, csi_at, csi_L, csi_P, csi_M,
}
use linux_0_11_read.Chr.Console.Layout.{IsLaid, IsSafe, rows-le, rows_mono, redraw-IsSafe}
use linux_0_11_read.Chr.Console.Scroll.{
  IsSafe-refl, IsSafe-trans, insert_line-IsSafe, delete_line-IsSafe,
}

-- Words of the screen.
erase-IsSafe :
    (start count : ℕ) (s : Console)
    → IsLaid s
    → s.origin ≤ start
    → start + 2 * count ≤ s.scr_end
    → IsSafe s (erase start count s)
erase-IsSafe start count s v from to =
    redraw-IsSafe s (fill start count s.erase_char s.word) v (λ a h. ground (arith, v, h, from, to))

-- The whole screen.
area : (s : Console) → IsLaid s → mul32 s.num_columns s.num_lines ≡ s.num_columns * s.num_lines
area s v = omega (arith, area_small)
  where
    area_small : s.num_columns * s.num_lines < 2 ^ 32
    area_small =
        omega (arith, rows_mono s.num_columns 255 s.num_lines (omega (arith, v.narrow)), v.low)

cells : (s : Console) → IsLaid s → 2 * (s.num_columns * s.num_lines) ≡ s.num_lines * s.size_row
cells s v = rw v.row (grind arith)

pub csi_J-IsSafe : (par : ℕ) (s : Console) → IsLaid s → IsSafe s (csi_J par s)
unfolding csi_J
csi_J-IsSafe par s v = elim (Bool-cases (par == 0)) [
  | inl h ↦ rw h (
      erase-IsSafe s.pos (sub32 s.scr_end s.pos / 2) s v (omega (arith, v))
        (omega (arith, v, rows-le s.y s.num_lines s.size_row v.line)))
  | inr h ↦ elim (Bool-cases (par == 1)) [
    | inl h1 ↦
        rw (h, h1)
          (erase-IsSafe s.origin (sub32 s.pos s.origin / 2) s v (omega arith)
            (omega (arith, v, rows-le s.y s.num_lines s.size_row v.line)))
    | inr h1 ↦ elim (Bool-cases (par == 2)) [
      | inl h2 ↦
          rw (h, h1, h2)
            (erase-IsSafe s.origin (mul32 s.num_columns s.num_lines) s v (omega arith)
              (rw (area s v) (omega (arith, v, cells s v))))
      | inr h2 ↦ rw (h, h1, h2) (IsSafe-refl s v)
    ]
  ]
]

-- The loops write the words between their first and their last.
shift_right-outside :
    (n p old : ℕ) (m : ℕ → ℕ) (a : ℕ) → a < p ⊎ p + 2 * n ≤ a → shift_right n p old m a ≡ m a
unfolding shift_right
shift_right-outside zero p old m a h = refl
shift_right-outside (suc n) p old m a h =
    ground (arith, h, shift_right-outside n (p + 2) (m p) (store p old m) a)

shift_left-outside :
    (n p last : ℕ) (m : ℕ → ℕ) (a : ℕ) → a < p ⊎ p + 2 * n < a → shift_left n p last m a ≡ m a
unfolding shift_left
shift_left-outside zero p last m a h = ground (arith, h)
shift_left-outside (suc n) p last m a h =
    ground (arith, h, shift_left-outside n (p + 2) last (store p (m (p + 2)) m) a)

insert_char-IsSafe : (s : Console) → IsLaid s → IsSafe s (insert_char s)
unfolding insert_char
insert_char-IsSafe s v =
    redraw-IsSafe s (shift_right (s.num_columns - s.x) s.pos s.erase_char s.word) v (λ a h.
      shift_right-outside (s.num_columns - s.x) s.pos s.erase_char s.word a
        (ground (arith, v, h, rows-le s.y s.num_lines s.size_row v.line)))

delete_char-IsSafe : (s : Console) → IsLaid s → IsSafe s (delete_char s)
unfolding delete_char
delete_char-IsSafe s v = elim (Bool-cases (leb s.num_columns s.x)) [
  | inl h ↦ rw h (IsSafe-refl s v)
  | inr h ↦ rw h (
      redraw-IsSafe s (shift_left (s.num_columns - s.x - 1) s.pos s.erase_char s.word) v (λ a o.
        shift_left-outside (s.num_columns - s.x - 1) s.pos s.erase_char s.word a
          (ground (arith, v, h, o, rows-le s.y s.num_lines s.size_row v.line))))
]

repeat-IsSafe :
    (n : ℕ) (f : Console → Console) (s : Console)
    → ((t : Console) → IsLaid t → IsSafe t (f t))
    → IsLaid s
    → IsSafe s (repeat n f s)
unfolding repeat
repeat-IsSafe zero f s keep v = IsSafe-refl s v
repeat-IsSafe (suc n) f s keep v =
    let first = keep s v in IsSafe-trans first (repeat-IsSafe n f (f s) keep first.laid)

pub csi_K-IsSafe : (par : ℕ) (s : Console) → IsLaid s → IsSafe s (csi_K par s)
unfolding csi_K
csi_K-IsSafe par s v = ground (arith, v, rows-le s.y s.num_lines s.size_row v.line)

-- `csi_m` and `save_cur` do not touch the layout.
pub csi_m-IsSafe : (s : Console) → IsLaid s → IsSafe s (csi_m s)
unfolding csi_m
csi_m-IsSafe s v = ground (arith, v)

pub save_cur-IsSafe : (s : Console) → IsLaid s → IsSafe s (save_cur s)
unfolding save_cur
save_cur-IsSafe s v = ground (arith, v)

pub csi_at-IsSafe : (nr : ℕ) (s : Console) → IsLaid s → IsSafe s (csi_at nr s)
unfolding csi_at
csi_at-IsSafe nr s v = repeat-IsSafe (rounds nr s.num_columns) insert_char s insert_char-IsSafe v

pub csi_L-IsSafe : (nr : ℕ) (s : Console) → IsLaid s → IsSafe s (csi_L nr s)
unfolding csi_L
csi_L-IsSafe nr s v = repeat-IsSafe (rounds nr s.num_lines) insert_line s insert_line-IsSafe v

pub csi_P-IsSafe : (nr : ℕ) (s : Console) → IsLaid s → IsSafe s (csi_P nr s)
unfolding csi_P
csi_P-IsSafe nr s v = repeat-IsSafe (rounds nr s.num_columns) delete_char s delete_char-IsSafe v

pub csi_M-IsSafe : (nr : ℕ) (s : Console) → IsLaid s → IsSafe s (csi_M nr s)
unfolding csi_M
csi_M-IsSafe nr s v = repeat-IsSafe (rounds nr s.num_lines) delete_line s delete_line-IsSafe v
