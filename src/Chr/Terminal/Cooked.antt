-- ===== src/Chr/Terminal/Cooked.antt =====
-- One character through the line discipline is one step of the editor.
use linux_0_11_read.Prelude.{
  ℕ, zero, suc, ◌<◌, ◌≡◌, inl, inr, refl, ap, ◌∙◌, sym, subst, List, [], ◌∷◌, none, some, length,
  Bool, true, false, ◌||◌, ◌&&◌, if◌then◌else◌, arith, Bool-cases, add32, not, slt, Option-cases,
}
use linux_0_11_read.Chr.Terminal.{
  Queue, Tty, IsAlike, IsDriver, echo_rub, echo_char, is_echo, is_empty, is_full, chars, has_flag,
  is_canon, is_cc, is_end, input_char, tty_intr, at_start, rub_out, kill_line, edit_line, interrupt,
  enter, cook,
}
use linux_0_11_read.Chr.Terminal.Ring.{
  IsQueue, contents, contents-putch, contents-drop_last, contents_empty, length-newest, chars-lt,
}
use linux_0_11_read.Chr.Terminal.Editor.{
  starts_line, without_line, without_last, typed, ends, ends-le,
}

-- `u` is a terminal with the settings and the input of `t`, and the text given.
pub record Holds (t : Tty) (text : List ℕ) (u : Tty) : Type 0 where
  pub settings : u.termios ≡ t.termios
  pub input : u.read_q ≡ t.read_q
  pub queue : IsQueue u.secondary
  pub text_of : contents u.secondary ≡ text
  pub lines :
      t.secondary.data_of ≡ ends t.termios (contents t.secondary)
      → u.secondary.data_of ≡ ends t.termios text

pub at_start-starts_line :
    (t : Tty) → IsQueue t.secondary → at_start t ≡ starts_line t.termios (contents t.secondary)
unfolding starts_line
at_start-starts_line t v = elim (Bool-cases (is_empty t.secondary)) [
  | inl h ↦ rw (contents_empty t.secondary h, h) refl
  | inr h ↦ rw (contents-drop_last t.secondary v h, h) refl
]

alike : (t : Tty) → IsAlike t t
alike t = record { settings = refl; input = refl; cooked = refl }

followed : {t u w : Tty} {mid text : List ℕ} → Holds t mid u → Holds u text w → Holds t text w
followed {u = u} {mid = mid} {text = text} k rest = record {
  settings = rest.settings ∙ k.settings;
  input = rest.input ∙ k.input;
  queue = rest.queue;
  text_of = rest.text_of;
  lines = λ d.
      rest.lines
        (k.lines d ∙ ap (λ m. ends m mid) (sym k.settings) ∙ sym (ap (ends u.termios) k.text_of))
      ∙ ap (λ m. ends m text) k.settings;
}

module _ (write : Tty → Tty) (driver : IsDriver write) where
  -- The driver sees a terminal that differs in `write_q` only.
  with_queue : (t : Tty) (q : Queue) → IsAlike t (write (record t { write_q = q }))
  with_queue t q =
      let a = driver.alike (record t { write_q = q }) in
      record { settings = a.settings; input = a.input; cooked = a.cooked }

  echo_rub-IsAlike : (t : Tty) → IsAlike t (echo_rub write t)
  unfolding echo_rub
  echo_rub-IsAlike t = elim (Bool-cases (is_echo t.termios)) [
    | inl h ↦ rw h (with_queue t _)
    | inr h ↦ rw h (alike t)
  ]

  echo_char-IsAlike : (c : ℕ) (t : Tty) → IsAlike t (echo_char write c t)
  unfolding echo_char
  echo_char-IsAlike c t = elim (Bool-cases (is_echo t.termios)) [
    | inl h ↦ rw h (with_queue t _)
    | inr h ↦ rw h (alike t)
  ]

  rub_out-Holds :
      (t : Tty) (c : ℕ) (text : List ℕ)
      → IsQueue t.secondary
      → contents t.secondary ≡ c ∷ text
      → is_end t.termios c ≡ false
      → Holds t text (rub_out write t)
  unfolding ends
  rub_out-Holds t c text v e inside = elim (Bool-cases (is_empty t.secondary)) [
    | inl h ↦ absurd (cc (contents_empty t.secondary h))
    | inr h ↦
        let a = echo_rub-IsAlike t in
        record {
          settings = a.settings;
          input = a.input;
          queue = rw a.cooked (record { head_in = omega arith; tail_in = v.tail_in });
          text_of = rw a.cooked (cc (contents-drop_last t.secondary v h));
          lines = λ d. rw a.cooked (d ∙ ap (ends t.termios) e ∙ skipped);
        }
  ]
    where
      skipped : ends t.termios (c ∷ text) ≡ ends t.termios text
      skipped = ground (arith, inside)

  same-Holds :
      (t : Tty) (text : List ℕ) → IsQueue t.secondary → contents t.secondary ≡ text → Holds t text t
  same-Holds t text v e = record {
    settings = refl;
    input = refl;
    queue = v;
    text_of = e;
    lines = λ h. h ∙ ap (ends t.termios) e;
  }

  kill_line-Holds :
      (n : ℕ) (t : Tty) (text : List ℕ)
      → IsQueue t.secondary
      → contents t.secondary ≡ text
      → length text < n
      → Holds t (without_line t.termios text) (kill_line write n t)
  unfolding kill_line without_line starts_line
  kill_line-Holds zero t text v e h = absurd (omega (arith, h))
  kill_line-Holds (suc n) t [] v e h = rw (at_start-starts_line t v, e) (same-Holds t [] v e)
  kill_line-Holds (suc n) t (c ∷ text) v e h = elim (Bool-cases (is_end t.termios c)) [
    | inl at_end ↦ rw (at_start-starts_line t v, e, at_end) (same-Holds t (c ∷ text) v e)
    | inr inside ↦
        let k = rub_out-Holds t c text v e inside in
        let u = rub_out write t in
        let rest = kill_line-Holds n u text k.queue k.text_of (omega (arith, h)) in
        rw (at_start-starts_line t v, e, inside)
          (followed k
            (subst (λ m. Holds u (without_line m text) (kill_line write n u)) k.settings rest))
  ]

  erase-Holds :
      (t : Tty) (text : List ℕ)
      → IsQueue t.secondary
      → contents t.secondary ≡ text
      → Holds t (without_last t.termios text) (if at_start t then t else rub_out write t)
  unfolding without_last starts_line
  erase-Holds t [] v e = rw (at_start-starts_line t v, e) (same-Holds t [] v e)
  erase-Holds t (c ∷ text) v e = elim (Bool-cases (is_end t.termios c)) [
    | inl at_end ↦ rw (at_start-starts_line t v, e, at_end) (same-Holds t (c ∷ text) v e)
    | inr inside ↦ rw (at_start-starts_line t v, e, inside) (rub_out-Holds t c text v e inside)
  ]

  enter-Holds :
      (c : ℕ) (t : Tty) (text : List ℕ)
      → IsQueue t.secondary
      → is_full t.secondary ≡ false
      → contents t.secondary ≡ text
      → Holds t (c ∷ text) (enter write c t)
  unfolding enter ends
  enter-Holds c t text v room e = record {
    settings = a.settings;
    input = a.input;
    queue = rw a.cooked (ground (arith, v));
    text_of = rw a.cooked (elim (Bool-cases (is_end t.termios c)) [
      | inl h ↦
          let q : Queue = record t.secondary { data_of = add32 t.secondary.data_of 1 } in
          let w : IsQueue q = record { head_in = v.head_in; tail_in = v.tail_in } in
          rw h (contents-putch c q w room ∙ ap (λ (l : List ℕ). c ∷ l) e)
      | inr h ↦ rw h (contents-putch c t.secondary v room ∙ ap (λ (l : List ℕ). c ∷ l) e)
    ]);
    lines = λ d. rw a.cooked (ground (arith, d, ap (ends t.termios) e, small));
  }
    where
      u : Tty
      u = record t {
        secondary =
            if is_end t.termios c
            then record t.secondary { data_of = add32 t.secondary.data_of 1 }
            else t.secondary;
      }

      a : IsAlike u (echo_char write c u)
      a = echo_char-IsAlike c u

      small : ends t.termios text < 1024
      small = omega (
        arith,
        ends-le t.termios text,
        ap length e,
        length-newest (chars t.secondary) t.secondary.head t.secondary.buf,
        chars-lt t.secondary,
      )

  stopped-Holds :
      (t : Tty) (text : List ℕ) (b : Bool)
      → IsQueue t.secondary
      → contents t.secondary ≡ text
      → Holds t text (record t { stopped = b })
  stopped-Holds t text b v e = record {
    settings = refl;
    input = refl;
    queue = v;
    text_of = e;
    lines = λ h. h ∙ ap (ends t.termios) e;
  }

  tty_intr-Holds :
      (mask : ℕ) (t : Tty) (text : List ℕ)
      → IsQueue t.secondary
      → contents t.secondary ≡ text
      → Holds t text (tty_intr mask t)
  unfolding tty_intr
  tty_intr-Holds mask t text v e = elim (Bool-cases (not (slt 0 t.pgrp))) [
    | inl h ↦ rw h (same-Holds t text v e)
    | inr h ↦ rw h (record {
      settings = refl;
      input = refl;
      queue = v;
      text_of = e;
      lines = λ h. h ∙ ap (ends t.termios) e;
    })
  ]

  -- Behind the editing.
  pass-Holds :
      (d : ℕ) (t : Tty) (text : List ℕ)
      → IsQueue t.secondary
      → is_full t.secondary ≡ false
      → contents t.secondary ≡ text
      → Holds t
          (if has_flag t.termios.c_lflag 1 && (is_cc t.termios 0 d || is_cc t.termios 1 d)
            then text
            else d ∷ text)
          (elim (if has_flag t.termios.c_lflag 1 then interrupt write d t else none) as (λ x. Tty) [
            | some u ↦ u
            | none ↦ enter write d t
          ])
  unfolding interrupt
  pass-Holds d t text v room e = elim (Bool-cases (has_flag t.termios.c_lflag 1)) [
    | inr h ↦ rw h (enter-Holds d t text v room e)
    | inl h ↦ elim (Bool-cases (is_cc t.termios 0 d)) [
      | inl c0 ↦ rw (h, c0) (tty_intr-Holds 2 t text v e)
      | inr c0 ↦ elim (Bool-cases (is_cc t.termios 1 d)) [
        | inl c1 ↦ rw (h, c0, c1) (tty_intr-Holds 4 t text v e)
        | inr c1 ↦ rw (h, c0, c1) (enter-Holds d t text v room e)
      ]
    ]
  ]

  pub cook-Holds :
      (c : ℕ) (t : Tty) (text : List ℕ)
      → IsQueue t.secondary
      → is_full t.secondary ≡ false
      → contents t.secondary ≡ text
      → length text < 1024
      → Holds t (typed t.termios c text) (cook write c t)
  unfolding cook typed edit_line
  cook-Holds c t text v room e h = elim (Option-cases (input_char t.termios c)) [
    | inl dropped ↦ rw (dropped, cook, typed) (same-Holds t text v e)
    | inr (d, found) ↦ elim (Bool-cases (is_canon t.termios)) [
      | inr raw ↦ rw (cook, typed, found, raw) (pass-Holds d t text v room e)
      | inl canon ↦ elim (Bool-cases (is_cc t.termios 3 d)) [
        | inl c3 ↦ rw (cook, typed, found, canon, edit_line, c3) (kill_line-Holds 1024 t text v e h)
        | inr c3 ↦ elim (Bool-cases (is_cc t.termios 2 d)) [
          | inl c2 ↦ rw (cook, typed, found, canon, edit_line, c3, c2) (erase-Holds t text v e)
          | inr c2 ↦ elim (Bool-cases (is_cc t.termios 9 d)) [
            | inl c9 ↦
                rw (cook, typed, found, canon, edit_line, c3, c2, c9)
                  (stopped-Holds t text true v e)
            | inr c9 ↦ elim (Bool-cases (is_cc t.termios 8 d)) [
              | inl c8 ↦
                  rw (cook, typed, found, canon, edit_line, c3, c2, c9, c8)
                    (stopped-Holds t text false v e)
              | inr c8 ↦
                  rw (cook, typed, found, canon, edit_line, c3, c2, c9, c8)
                    (pass-Holds d t text v room e)
            ]
          ]
        ]
      ]
    ]
  ]
