-- ===== src/Chr/Console/Scroll.antt =====
-- The scrolls keep the layout.
use linux_0_11_read.Prelude.{
  ℕ, ◌+◌, ◌-◌, ◌*◌, ◌/◌, ◌≤◌, ◌≡◌, inl, inr, refl, ap, arith, true, false, ◌&&◌, ◌==◌, ltb, add32,
  sub32, mul32, Bool-cases, ◌∙◌,
}
use linux_0_11_read.Chr.Console.{
  Console, is_ega, lf, ri, scrup, scrdown, next_origin, advance, wrap_screen, clear_last,
  set_origin,
}
use linux_0_11_read.Chr.Console.Edit.{from_cursor, insert_line, delete_line}
use linux_0_11_read.Chr.Console.Layout.{
  IsLaid, IsSafe, rows_add, rows-le, rows_mono, move_up-IsSafe, scrdown-IsSafe,
}

pub IsSafe-refl : (s : Console) → IsLaid s → IsSafe s s
IsSafe-refl s v = record {
  laid = v;
  same_start = refl;
  same_end = refl;
  same_columns = refl;
  same_lines = refl;
  outside = λ a h. refl;
}

pub IsSafe-trans : {s t u : Console} → IsSafe s t → IsSafe t u → IsSafe s u
IsSafe-trans p q = record {
  laid = q.laid;
  same_start = q.same_start ∙ p.same_start;
  same_end = q.same_end ∙ p.same_end;
  same_columns = q.same_columns ∙ p.same_columns;
  same_lines = q.same_lines ∙ p.same_lines;
  outside = λ a h. q.outside a (ground (arith, h, p.same_start, p.same_end)) ∙ p.outside a h;
}

module _ (s : Console) (v : IsLaid s) where
  -- The lines but the last, and the last.
  pub all_lines : (s.num_lines - 1) * s.size_row + s.size_row ≡ s.num_lines * s.size_row
  all_lines =
      omega (
        arith,
        v.line,
        ap (λ (t : ℕ). t * s.size_row) apart,
        rows_add (s.num_lines - 1) 1 s.size_row,
      )
    where
      apart : s.num_lines ≡ s.num_lines - 1 + 1
      apart = omega (arith, v.line)

  pub wrap_columns : mul32 (sub32 s.num_lines 1) s.num_columns ≡ (s.num_lines - 1) * s.num_columns
  wrap_columns = rw minus (omega (arith, bounded, v.narrow))
    where
      minus : sub32 s.num_lines 1 ≡ s.num_lines - 1
      minus = omega (arith, v.line, v.low)

      bounded : (s.num_lines - 1) * s.num_columns ≤ 255 * s.num_columns
      bounded = rows_mono (s.num_lines - 1) 255 s.num_columns (omega (arith, v.low))

  wrap_count :
      mul32 (sub32 s.num_lines 1) s.num_columns / 2 * 4 + s.size_row ≤ s.num_lines * s.size_row
  wrap_count = rw wrap_columns (omega (arith, double, all_lines))
    where
      double : 2 * ((s.num_lines - 1) * s.num_columns) ≡ (s.num_lines - 1) * s.size_row
      double = rw (v.row) (grind arith)

  clear_last-IsSafe :
      ltb s.mem_end (next_origin s).scr_end ≡ false → IsSafe s (clear_last (next_origin s))
  clear_last-IsSafe h = ground (arith, v, h, rows-le s.y s.num_lines s.size_row v.line)

  wrap_screen-IsSafe :
      ltb s.mem_end (next_origin s).scr_end ≡ true → IsSafe s (wrap_screen (next_origin s))
  wrap_screen-IsSafe h = ground (arith, v, h, rows-le s.y s.num_lines s.size_row v.line, wrap_count)

set_origin-IsSafe : (s t : Console) → IsSafe s t → IsSafe s (set_origin t)
set_origin-IsSafe s t p = record {
  laid = ground (arith, p.laid);
  same_start = p.same_start;
  same_end = p.same_end;
  same_columns = p.same_columns;
  same_lines = p.same_lines;
  outside = p.outside;
}

advance-IsSafe : (s : Console) → IsLaid s → IsSafe s (advance (next_origin s))
advance-IsSafe s v = elim (Bool-cases (ltb s.mem_end (next_origin s).scr_end)) [
  | inl h ↦ rw h (set_origin-IsSafe s (wrap_screen (next_origin s)) (wrap_screen-IsSafe s v h))
  | inr h ↦ rw h (set_origin-IsSafe s (clear_last (next_origin s)) (clear_last-IsSafe s v h))
]

pub scrup-IsSafe : (s : Console) → IsLaid s → IsSafe s (scrup s)
unfolding scrup
scrup-IsSafe s v = elim (Bool-cases (is_ega s && (s.top == 0) && (s.bottom == s.num_lines))) [
  | inl h ↦ rw h (advance-IsSafe s v)
  | inr h ↦ rw h (move_up-IsSafe s v)
]

pub lf-IsSafe : (s : Console) → IsLaid s → IsSafe s (lf s)
unfolding lf
lf-IsSafe s v = elim (Bool-cases (ltb (add32 s.y 1) s.bottom)) [
  | inl h ↦
      rw h
        (ground (arith, v, h, rows-le s.y s.num_lines s.size_row v.line, rows_add s.y 1 s.size_row))
  | inr h ↦ rw h (scrup-IsSafe s v)
]

pub ri-IsSafe : (s : Console) → IsLaid s → IsSafe s (ri s)
unfolding ri
ri-IsSafe s v = elim (Bool-cases (ltb s.top s.y)) [
  | inl h ↦ rw h (
      ground (
        arith,
        v,
        h,
        rows-le s.y s.num_lines s.size_row v.line,
        rows-le (s.y - 1) s.y s.size_row,
        rows_add (s.y - 1) 1 s.size_row,
      ))
  | inr h ↦ rw h (scrdown-IsSafe s v)
]

from_cursor-IsSafe :
    (scroll : Console → Console) (s : Console)
    → ((t : Console) → IsLaid t → IsSafe t (scroll t))
    → IsLaid s
    → IsSafe s (from_cursor scroll s)
from_cursor-IsSafe scroll s keep v =
    let t : Console = record s { top = s.y; bottom = s.num_lines } in
    let k : IsSafe t (scroll t) = keep t (ground (arith, v)) in
    record {
      laid = ground (arith, k.laid, k.same_lines, v);
      same_start = k.same_start;
      same_end = k.same_end;
      same_columns = k.same_columns;
      same_lines = k.same_lines;
      outside = k.outside;
    }

pub insert_line-IsSafe : (s : Console) → IsLaid s → IsSafe s (insert_line s)
unfolding insert_line
insert_line-IsSafe s v = from_cursor-IsSafe scrdown s scrdown-IsSafe v

pub delete_line-IsSafe : (s : Console) → IsLaid s → IsSafe s (delete_line s)
unfolding delete_line
delete_line-IsSafe s v = from_cursor-IsSafe scrup s scrup-IsSafe v
