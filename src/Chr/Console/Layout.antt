-- ===== src/Chr/Console/Layout.antt =====
-- Where the cursor and the screen lie.
use linux_0_11_read.Prelude.{
  ℕ, ◌+◌, ◌-◌, ◌*◌, ◌/◌, ◌^◌, ◌≤◌, ◌<◌, ◌≡◌, ◌⊎◌, refl, ap, arith, sub32, length,
}
use linux_0_11_read.Chr.Console.{
  Console, n_par, gotoxy, cr, del, scrdown, move_up, line_at, region_count,
}

-- The screen is in the video memory, the cursor at column `x` of line `y` of it, where the column
-- behind the last is one too, and the parameters are in their array.
pub record IsLaid (s : Console) : Type 0 where
  pub row : s.size_row ≡ 2 * s.num_columns
  pub wide : 8 ≤ s.num_columns
  pub narrow : s.num_columns < 2 ^ 8
  pub low : s.num_lines < 2 ^ 8
  pub region_from : s.top < s.bottom
  pub region_to : s.bottom ≤ s.num_lines
  pub from_start : s.mem_start ≤ s.origin
  pub to_end : s.scr_end ≤ s.mem_end
  pub small : s.mem_end ≤ 2 ^ 20
  pub screen : s.scr_end ≡ s.origin + s.num_lines * s.size_row
  pub column : s.x ≤ s.num_columns
  pub line : s.y < s.num_lines
  pub at_cursor : s.pos ≡ s.origin + s.y * s.size_row + 2 * s.x
  pub params : length s.par ≡ n_par
  pub last_param : s.npar < n_par

-- A step from `s` to `t` keeps the layout, and writes nothing outside the video memory.
pub record IsSafe (s t : Console) : Type 0 where
  pub laid : IsLaid t
  pub same_start : t.mem_start ≡ s.mem_start
  pub same_end : t.mem_end ≡ s.mem_end
  pub same_columns : t.num_columns ≡ s.num_columns
  pub same_lines : t.num_lines ≡ s.num_lines
  pub outside : (a : ℕ) → a < s.mem_start ⊎ s.mem_end ≤ a → t.word a ≡ s.word a

-- Lines and rows.
pub rows_add : (a b row : ℕ) → (a + b) * row ≡ a * row + b * row
rows_add a b row = grind arith

pub rows-le : (y n row : ℕ) → y < n → y * row + row ≤ n * row
rows-le y n row h =
    omega (arith, ap (λ (t : ℕ). t * row) apart, rows_add (y + 1) (n - y - 1) row, rows_add y 1 row)
  where
    apart : n ≡ y + 1 + (n - y - 1)
    apart = omega (arith, h)

pub gotoxy-IsSafe : (new_x new_y : ℕ) (s : Console) → IsLaid s → IsSafe s (gotoxy new_x new_y s)
unfolding gotoxy
gotoxy-IsSafe new_x new_y s v = ground (arith, v, rows-le new_y s.num_lines s.size_row)

pub rows_mono : (y n row : ℕ) → y ≤ n → y * row ≤ n * row
rows_mono y n row h = omega (arith, ap (λ (t : ℕ). t * row) apart, rows_add y (n - y) row)
  where
    apart : n ≡ y + (n - y)
    apart = omega (arith, h)

swap_rows : (n row : ℕ) → row * n ≡ n * row
swap_rows n row = grind arith

pub line_at-eq :
    (n : ℕ) (s : Console) → IsLaid s → n ≤ s.num_lines → line_at n s ≡ s.origin + n * s.size_row
line_at-eq n s v h =
    rw (swap_rows n s.size_row)
      (omega (arith, v.screen, v.to_end, v.small, rows_mono n s.num_lines s.size_row h))

pub region_count-eq :
    (s : Console) → IsLaid s → region_count s ≡ (s.bottom - s.top - 1) * s.num_columns / 2
region_count-eq s v = rw inner (omega (arith, v.narrow, bounded))
  where
    inner : sub32 (sub32 s.bottom s.top) 1 ≡ s.bottom - s.top - 1
    inner = omega (arith, v.region_from, v.region_to, v.low)

    bounded : (s.bottom - s.top - 1) * s.num_columns ≤ 255 * s.num_columns
    bounded = rows_mono (s.bottom - s.top - 1) 255 s.num_columns (omega (arith, v.region_to, v.low))

-- The cells of the region, from its first line to behind its last.
pub region_size :
    (s : Console)
    → IsLaid s
    → s.top * s.size_row + 2 * ((s.bottom - s.top - 1) * s.num_columns) + s.size_row
      ≡ s.bottom * s.size_row
region_size s v = omega (
  arith,
  double,
  ap (λ (t : ℕ). t * s.size_row) apart,
  rows_add (s.top + 1) (s.bottom - s.top - 1) s.size_row,
  rows_add s.top 1 s.size_row,
)
  where
    apart : s.bottom ≡ s.top + 1 + (s.bottom - s.top - 1)
    apart = omega (arith, v.region_from)

    double : 2 * ((s.bottom - s.top - 1) * s.num_columns) ≡ (s.bottom - s.top - 1) * s.size_row
    double = rw (v.row) (grind arith)

-- A change of the video memory alone.
pub redraw-IsSafe :
    (s : Console) (w : ℕ → ℕ)
    → IsLaid s
    → ((a : ℕ) → a < s.mem_start ⊎ s.mem_end ≤ a → w a ≡ s.word a)
    → IsSafe s (record s { word = w })
redraw-IsSafe s w v h = record {
  laid = ground (arith, v);
  same_start = refl;
  same_end = refl;
  same_columns = refl;
  same_lines = refl;
  outside = h;
}

-- The moves of the cursor.
pub cr-IsSafe : (s : Console) → IsLaid s → IsSafe s (cr s)
unfolding cr
cr-IsSafe s v = ground (arith, v, rows-le s.y s.num_lines s.size_row v.line)

pub del-IsSafe : (s : Console) → IsLaid s → IsSafe s (del s)
unfolding del
del-IsSafe s v = ground (arith, v, rows-le s.y s.num_lines s.size_row v.line)

pub move_up-IsSafe : (s : Console) → IsLaid s → IsSafe s (move_up s)
move_up-IsSafe s v = redraw-IsSafe s (move_up s).word v (λ a h.
    rw (region_count-eq s v, line_at-eq s.top s v (omega (arith, v.region_from, v.region_to)))
      (ground
        (arith, v, h, region_size s v, rows_mono s.bottom s.num_lines s.size_row v.region_to)))

pub scrdown-IsSafe : (s : Console) → IsLaid s → IsSafe s (scrdown s)
unfolding scrdown
scrdown-IsSafe s v = redraw-IsSafe s (scrdown s).word v (λ a h.
    rw (region_count-eq s v, line_at-eq s.bottom s v v.region_to)
      (ground
        (arith, v, h, region_size s v, rows_mono s.bottom s.num_lines s.size_row v.region_to)))
