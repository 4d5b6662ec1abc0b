-- ===== src/Chr/Console/Screen.antt =====
-- What a scroll does to the screen, on every type of display.
use linux_0_11_read.Prelude.{
  ℕ, ◌+◌, ◌-◌, ◌*◌, ◌/◌, ◌%◌, ◌<◌, ◌≡◌, inl, inr, refl, ap, arith, true, false, ◌&&◌, ◌||◌, ◌==◌,
  ltb, leb, if◌then◌else◌, add32, sub32, mul32, Bool-cases, ◌∙◌,
}
use linux_0_11_read.Chr.Console.{
  Console, is_ega, lf, scrup, move_up, next_origin, wrap_screen, clear_last, line_at, region_count,
}
use linux_0_11_read.Chr.Console.Scroll.{all_lines, wrap_columns}
use linux_0_11_read.Chr.Console.Layout.{
  IsLaid, rows_add, rows-le, rows_mono, line_at-eq, region_count-eq, region_size,
}

-- The word at a line and a column.
abbrev pub cell : Console → ℕ → ℕ → ℕ
cell s r c = s.word (s.origin + r * s.size_row + 2 * c)

-- The lines of the region move up by one, and its last is cleared.
abbrev pub scrolled : Console → ℕ → ℕ → ℕ
scrolled s r c =
    if ltb r s.top || leb s.bottom r
    then cell s r c
    else if r + 1 == s.bottom
    then s.erase_char
    else cell s (r + 1) c

-- For an even number of columns `movsl` moves whole lines.
whole_lines : (n columns : ℕ) → columns % 2 ≡ 0 → 4 * (n * columns / 2) ≡ n * (2 * columns)
whole_lines n columns even = omega (arith, halves, ap (λ (t : ℕ). n * t) half)
  where
    half : columns ≡ columns / 2 * 2
    half = omega (arith, even)

    halves : n * (columns / 2 * 2) ≡ n * (columns / 2) * 2
    halves = grind arith

module _ (s : Console) (v : IsLaid s) (even : s.num_columns % 2 ≡ 0) (r c : ℕ)
    (hr : r < s.num_lines) (hc : c < s.num_columns) where
  -- The parts of the screen in bytes: the lines of the region but the last, and line `r`.
  region_bytes : 4 * region_count s ≡ (s.bottom - s.top - 1) * s.size_row
  region_bytes =
      rw (region_count-eq s v, v.row) (whole_lines (s.bottom - s.top - 1) s.num_columns even)

  region_end :
      s.top * s.size_row + (s.bottom - s.top - 1) * s.size_row + s.size_row ≡ s.bottom * s.size_row
  region_end = omega (arith, region_size s v, double)
    where
      double : 2 * ((s.bottom - s.top - 1) * s.num_columns) ≡ (s.bottom - s.top - 1) * s.size_row
      double = rw (v.row) (grind arith)

  next_row : (r + 1) * s.size_row ≡ r * s.size_row + s.size_row
  next_row = omega (arith, rows_add r 1 s.size_row)

  from_line : line_at (add32 s.top 1) s ≡ s.origin + s.top * s.size_row + s.size_row
  from_line =
      rw below (line_at-eq (s.top + 1) s v (omega (arith, v.region_from, v.region_to)) ∙ sum)
    where
      below : add32 s.top 1 ≡ s.top + 1
      below = omega (arith, v.region_from, v.region_to, v.low)

      sum : s.origin + (s.top + 1) * s.size_row ≡ s.origin + s.top * s.size_row + s.size_row
      sum = omega (arith, rows_add s.top 1 s.size_row)

  to_line : line_at s.top s ≡ s.origin + s.top * s.size_row
  to_line = line_at-eq s.top s v (omega (arith, v.region_from, v.region_to))

  row_of_last : r + 1 ≡ s.bottom → (r + 1) * s.size_row ≡ s.bottom * s.size_row
  row_of_last e = ap (λ (t : ℕ). t * s.size_row) e

  move_up-cell : cell (move_up s) r c ≡ scrolled s r c
  move_up-cell =
      rw (region_bytes, from_line, to_line)
        (ground (
          arith,
          v,
          hr,
          hc,
          region_end,
          next_row,
          row_of_last,
          rows-le r s.top s.size_row,
          rows_mono s.bottom r s.size_row,
          rows-le (r + 1) s.bottom s.size_row,
          rows_mono s.top r s.size_row,
        ))

  clear_last-cell :
      s.top ≡ 0
      → s.bottom ≡ s.num_lines
      → ltb s.mem_end (next_origin s).scr_end ≡ false
      → cell (clear_last (next_origin s)) r c ≡ scrolled s r c
  clear_last-cell t b h = ground (
    arith,
    v,
    hr,
    hc,
    t,
    b,
    h,
    next_row,
    row_of_last,
    ap (λ (n : ℕ). n * s.size_row) b,
    rows-le (r + 1) s.num_lines s.size_row,
    rows-le r s.num_lines s.size_row,
  )

  wrap_screen-cell :
      s.top ≡ 0
      → s.bottom ≡ s.num_lines
      → ltb s.mem_end (next_origin s).scr_end ≡ true
      → cell (wrap_screen (next_origin s)) r c ≡ scrolled s r c
  wrap_screen-cell t b h = rw wrap_bytes (
      ground (
        arith,
        v,
        hr,
        hc,
        t,
        b,
        next_row,
        row_of_last,
        all_lines s v,
        ap (λ (n : ℕ). n * s.size_row) b,
        rows-le (r + 1) s.num_lines s.size_row,
      ))
    where
      wrap_bytes :
          4 * (mul32 (sub32 s.num_lines 1) s.num_columns / 2) ≡ (s.num_lines - 1) * s.size_row
      wrap_bytes = rw (wrap_columns s v, v.row) (whole_lines (s.num_lines - 1) s.num_columns even)

  -- scrup
  pub scrup-cell : cell (scrup s) r c ≡ scrolled s r c
  unfolding scrup
  scrup-cell = elim (Bool-cases (is_ega s && (s.top == 0) && (s.bottom == s.num_lines))) [
    | inr h ↦ rw h move_up-cell
    | inl h ↦
        let t : s.top ≡ 0 = ground (arith, h) in
        let b : s.bottom ≡ s.num_lines = ground (arith, h) in
        elim (Bool-cases (ltb s.mem_end (next_origin s).scr_end)) [
          | inl g ↦ rw (h, g) (wrap_screen-cell t b g)
          | inr g ↦ rw (h, g) (clear_last-cell t b g)
        ]
  ]

-- A scroll leaves the cursor in its line and column.
scrup_keeps : (s : Console) → ((scrup s).x ≡ s.x) × ((scrup s).y ≡ s.y)
unfolding scrup
scrup_keeps s = ground arith

-- In the layout that con_write keeps, with an even number of columns, a line feed above the last
-- line of the scroll region moves the cursor down and changes no cell; otherwise the cursor stays,
-- and the screen is what a move of the lines of the region up by one gives, with the last one
-- cleared and those outside as they were, whether memory is moved or the origin of an EGA screen.
pub lf-scrolled :
    (s : Console) (r c : ℕ)
    → IsLaid s
    → s.num_columns % 2 ≡ 0
    → r < s.num_lines
    → c < s.num_columns
    → (cell (lf s) r c ≡ (if ltb (s.y + 1) s.bottom then cell s r c else scrolled s r c))
      × ((lf s).x ≡ s.x)
      × ((lf s).y ≡ (if ltb (s.y + 1) s.bottom then s.y + 1 else s.y))
unfolding lf
lf-scrolled s r c v even hr hc = rw below (elim (Bool-cases (ltb (s.y + 1) s.bottom)) [
  | inl h ↦ rw h (refl, refl, refl)
  | inr h ↦ rw h (scrup-cell s v even r c hr hc, scrup_cursor.0, scrup_cursor.1)
])
  where
    below : add32 s.y 1 ≡ s.y + 1
    below = omega (arith, v.line, v.low)

    scrup_cursor : ((scrup s).x ≡ s.x) × ((scrup s).y ≡ s.y)
    scrup_cursor = scrup_keeps s
