-- ===== src/Chr/Console/Tests.antt =====
-- Runs of the console, and the theorems on a color display of 80 columns.
use linux_0_11_read.Prelude.{
  ℕ, ◌+◌, ◌≡◌, refl, List, [], ◌∷◌, false, if◌then◌else◌, ltb, arith, replicate,
}
use linux_0_11_read.Chr.Console.{Console, gotoxy, lf, n_par, scrup}
use linux_0_11_read.Chr.Console.Write.{
  Setup, con_init, con_write, put_chars, put_char, plain, escape, first_param, param, command,
  print_char,
}
use linux_0_11_read.Chr.Console.Layout.{IsLaid, IsSafe}
use linux_0_11_read.Chr.Console.Safe.{con_write-IsSafe, con_init-IsLaid}
use linux_0_11_read.Chr.Console.Screen.{cell, scrolled, lf-scrolled}

-- The static variables as the kernel is loaded.
abbrev blank : Console
blank = record {
  video_type = 0;
  num_columns = 0;
  size_row = 0;
  num_lines = 0;
  mem_start = 0;
  mem_end = 0;
  erase_char = 0;
  origin = 0;
  scr_end = 0;
  pos = 0;
  x = 0;
  y = 0;
  top = 0;
  bottom = 0;
  state = 0;
  npar = 0;
  par = replicate n_par 0;
  ques = false;
  attr = 7;
  saved_x = 0;
  saved_y = 0;
  word = λ a. 0x0720;
  screen_start = 0;
  cursor = 0;
  beepcount = 0;
  typed = [];
}

abbrev vga : Setup
vga = record { orig_x = 0; orig_y = 15; video_mode = 3; video_cols = 80; ega_bx = 3 }

abbrev started : Console
started = con_init vga blank

started-IsLaid : IsLaid started
started-IsLaid =
    con_init-IsLaid vga blank (omega arith) (omega arith) (omega arith) (omega arith) refl
      (omega arith)

-- ESC [ 5 ; 7 H, then "Hi" and a line feed.
abbrev text : List ℕ
text = 27 ∷ b'[' ∷ b'5' ∷ b';' ∷ b'7' ∷ b'H' ∷ b'H' ∷ b'i' ∷ 10 ∷ []

con_write-IsSafe_example : IsSafe started (con_write 127 text started)
con_write-IsSafe_example = con_write-IsSafe 127 text started started-IsLaid

moved : ((con_write 127 text started).x ≡ 8) × ((con_write 127 text started).y ≡ 5)
unfolding con_init con_write put_chars put_char plain escape first_param param command print_char
    gotoxy lf scrup
moved = (refl, refl)

printed : cell (con_write 127 text started) 4 6 ≡ 0x748
unfolding con_init con_write put_chars put_char plain escape first_param param command print_char
    gotoxy lf scrup
printed = refl

-- The test for ESC 7 is on the column, so that the cursor is not saved.
saved_nothing : (con_write 127 (27 ∷ b'7' ∷ []) started).saved_y ≡ 0
unfolding con_init con_write put_chars put_char plain escape gotoxy
saved_nothing = refl

lf-scrolled_example :
    (cell (lf started) 24 3
      ≡ (if ltb (started.y + 1) started.bottom then cell started 24 3 else scrolled started 24 3))
    × ((lf started).x ≡ started.x)
    × ((lf started).y ≡ (if ltb (started.y + 1) started.bottom then started.y + 1 else started.y))
unfolding con_init gotoxy
lf-scrolled_example = lf-scrolled started 24 3 started-IsLaid refl (omega arith) (omega arith)
