-- ===== src/Fs/Files/Count.antt =====
-- The use counts of the open files: as many as descriptors, and as the other processes hold.
use linux_0_11_read.Prelude.{
  ℕ, zero, suc, ◌+◌, ◌-◌, ◌^◌, ◌%◌, ◌≤◌, ◌<◌, ◌≡◌, ◌≢◌, inl, inr, refl, sym, ap, ◌∙◌, List, [], ◌∷◌,
  Option, none, some, false, ◌==◌, leb, if◌then◌else◌, arith, length, get_or, set, length-set,
  get_or-set_self, get_or-set_ne, get_or-out, Option-cases, Bool-cases, ℕ_discrete, dec_lt, done,
}
use linux_0_11_read.Fs.Files.{
  File, Files, nr_open, nr_file, ebadf, einval, emfile, no_file, fd_at, file_at, set_count, dupfd,
  sys_close,
}
use linux_0_11_read.Fs.Files.Free.{dupfd_lem}

unfoldable pub use_of : ℕ → Option ℕ → ℕ
use_of f none = 0
use_of f (some g) = if f == g then 1 else 0

-- The descriptors that are open on the file `f`.
unfoldable pub uses : ℕ → List (Option ℕ) → ℕ
uses f [] = 0
uses f (x ∷ xs) = use_of f x + uses f xs

-- `others f` is what holds `f` beside the descriptors of this process.
pub record IsFiles (others : ℕ → ℕ) (s : Files) : Type 0 where
  pub fds : length s.filp ≡ nr_open
  pub files : length s.file_table ≡ nr_file
  pub counted : (f : ℕ) → (file_at s f).f_count ≡ others f + uses f s.filp
  pub fits : (f : ℕ) → others f + nr_open < 2 ^ 16

use_of_self : (f : ℕ) → use_of f (some f) ≡ 1
unfolding use_of
use_of_self f = ground arith

use_of-none : (f : ℕ) → use_of f none ≡ 0
unfolding use_of
use_of-none f = refl

use_of-ne : (f g : ℕ) → f ≢ g → use_of f (some g) ≡ 0
unfolding use_of
use_of-ne f g ne = ground (arith, ne)

use_of-le : (f : ℕ) (x : Option ℕ) → use_of f x ≤ 1
unfolding use_of
use_of-le f none = omega arith
use_of-le f (some g) = ground arith

uses-le : (f : ℕ) (xs : List (Option ℕ)) → uses f xs ≤ length xs
unfolding uses
uses-le f [] = omega arith
uses-le f (x ∷ xs) = omega (arith, use_of-le f x, uses-le f xs)

uses-set :
    (f : ℕ) (xs : List (Option ℕ)) (i : ℕ) (v : Option ℕ)
    → i < length xs
    → uses f (set xs i v) + use_of f (get_or xs i none) ≡ uses f xs + use_of f v
unfolding uses
uses-set f [] i v h = elim h [ ]
uses-set f (x ∷ xs) zero v h = omega arith
uses-set f (x ∷ xs) (suc i) v h = omega (arith, uses-set f xs i v (omega arith))

uses-open :
    (f : ℕ) (xs : List (Option ℕ)) (i : ℕ)
    → i < length xs
    → get_or xs i none ≡ some f
    → 1 ≤ uses f xs
unfolding uses
uses-open f [] i h e = elim h [ ]
uses-open f (x ∷ xs) zero h e = rw (e, use_of_self f) (omega arith)
uses-open f (x ∷ xs) (suc i) h e = omega (arith, uses-open f xs i (omega arith) e)

-- An open descriptor is one of a file in the table, which is in use.
open_file :
    {others : ℕ → ℕ} (s : Files) (i f : ℕ)
    → IsFiles others s
    → i < nr_open
    → fd_at s i ≡ some f
    → (f < nr_file) × (1 ≤ (file_at s f).f_count) × ((file_at s f).f_count + 1 < 2 ^ 16 + 1)
open_file s i f v h e = (
  elim (dec_lt f nr_file) [
    | yes p ↦ p
    | no p ↦ absurd (
        omega (
          arith,
          used,
          ap (λ (x : File). x.f_count)
              (get_or-out s.file_table f no_file (omega (arith, p, v.files))),
        ))
  ],
  used,
  omega (arith, v.counted f, v.fits f, v.fds, uses-le f s.filp),
)
  where
    used : 1 ≤ (file_at s f).f_count
    used = omega (arith, v.counted f, uses-open f s.filp i (omega (arith, v.fds)) e)

set_count_self :
    (s : Files) (f n : ℕ)
    → f < length s.file_table
    → n < 2 ^ 16
    → (get_or (set_count s f n) f no_file).f_count ≡ n
set_count_self s f n h small = ground (
  arith,
  get_or-set_self s.file_table f (record (file_at s f) { f_count = n % 2 ^ 16 }) no_file h,
)

set_count-ne :
    (s : Files) (f n g : ℕ)
    → f ≢ g
    → (get_or (set_count s f n) g no_file).f_count ≡ (file_at s g).f_count
set_count-ne s f n g ne =
    ap (λ (x : File). x.f_count)
      (get_or-set_ne s.file_table f g (record (file_at s f) { f_count = n % 2 ^ 16 }) no_file ne)

-- Opening the free descriptor `i` on the file `f`, or closing `i`, which is open on `f`.
module _ {others : ℕ → ℕ} (s : Files) (v : IsFiles others s) (i f : ℕ) (h : i < nr_open) where
  uses-change :
      (x y : Option ℕ) (g : ℕ)
      → fd_at s i ≡ x
      → uses g (set s.filp i y) + use_of g x ≡ uses g s.filp + use_of g y
  uses-change x y g e = rw (sym e) (uses-set g s.filp i y (omega (arith, v.fds)))

  uses-bound : (y : Option ℕ) (g : ℕ) → uses g (set s.filp i y) ≤ nr_open
  uses-bound y g = omega (arith, uses-le g (set s.filp i y), length-set s.filp i y, v.fds)

  opened-count :
      (g : ℕ)
      → fd_at s i ≡ none
      → f < nr_file
      → (get_or (set_count s f ((file_at s f).f_count + 1)) g no_file).f_count
        ≡ others g + uses g (set s.filp i (some f))
  opened-count g e small = elim (ℕ_discrete f g) [
    | yes same ↦ rw (sym same) (
        set_count_self s f ((file_at s f).f_count + 1) (omega (arith, v.files))
          (omega (arith, up, v.counted f, v.fits f, uses-bound (some f) f))
        ∙ omega (arith, up, v.counted f))
    | no ne ↦
        set_count-ne s f ((file_at s f).f_count + 1) g ne
        ∙ omega (
          arith,
          v.counted g,
          uses-change none (some f) g e,
          use_of-none g,
          use_of-ne g f (λ x. ne (sym x)),
        )
  ]
    where
      up : uses f (set s.filp i (some f)) ≡ uses f s.filp + 1
      up = omega (arith, uses-change none (some f) f e, use_of-none f, use_of_self f)

  closed-count :
      (g : ℕ)
      → fd_at s i ≡ some f
      → (get_or (set_count s f ((file_at s f).f_count - 1)) g no_file).f_count
        ≡ others g + uses g (set s.filp i none)
  closed-count g e = elim (ℕ_discrete f g) [
    | yes same ↦ rw (sym same) (
        set_count_self s f ((file_at s f).f_count - 1) (omega (arith, v.files, known.0))
          (omega (arith, known.2))
        ∙ omega (arith, up, known.1, v.counted f))
    | no ne ↦
        set_count-ne s f ((file_at s f).f_count - 1) g ne
        ∙ omega (
          arith,
          v.counted g,
          uses-change (some f) none g e,
          use_of-none g,
          use_of-ne g f (λ x. ne (sym x)),
        )
  ]
    where
      known : (f < nr_file) × (1 ≤ (file_at s f).f_count) × ((file_at s f).f_count + 1 < 2 ^ 16 + 1)
      known = open_file s i f v h e

      up : uses f (set s.filp i none) + 1 ≡ uses f s.filp
      up = omega (arith, uses-change (some f) none f e, use_of-none f, use_of_self f)

-- `dupfd` returns, and keeps every file's use count right.
pub dupfd-IsFiles :
    {others : ℕ → ℕ} (fd arg : ℕ) (s : Files)
    → IsFiles others s
    → (n : ℕ) × (t : Files) × (dupfd fd arg s ≡ done n t) × IsFiles others t
unfolding dupfd
dupfd-IsFiles {others} fd arg s v = elim (Bool-cases (leb nr_open fd)) [
  | inl bad ↦ (ebadf, s, ground (arith, bad), v)
  | inr good ↦ elim (Option-cases (fd_at s fd)) [
    | inl closed ↦ (ebadf, s, ground (arith, good, closed), v)
    | inr (f, e) ↦ elim (Bool-cases (leb nr_open arg)) [
      | inl out ↦ (einval, s, ground (arith, good, e, out), v)
      | inr inside ↦ dup f (ground (arith, good)) e (ground (arith, inside))
    ]
  ]
]
  where
    dup :
        (f : ℕ)
        → fd < nr_open
        → fd_at s fd ≡ some f
        → arg < nr_open
        → (n : ℕ) × (t : Files) × (dupfd fd arg s ≡ done n t) × IsFiles others t
    dup f h e a =
        let (free, first, ends) = dupfd_lem fd arg f s h e a in
        elim ends [
          | inl (eq, room) ↦
              let is_free = first.is_free (omega (arith, room, a)) in
              (
                free,
                _,
                eq,
                record {
                  fds = length-set s.filp free (some f) ∙ v.fds;
                  files = length-set s.file_table f _ ∙ v.files;
                  counted = λ g. opened-count s v free f room g is_free (open_file s fd f v h e).0;
                  fits = v.fits;
                },
              )
          | inr (eq, _) ↦ (emfile, s, eq, v)
        ]

-- `sys_close` returns, and keeps every file's use count right.
pub sys_close-IsFiles :
    {others : ℕ → ℕ} (fd : ℕ) (s : Files)
    → IsFiles others s
    → (n : ℕ) × (t : Files) × (sys_close fd s ≡ done n t) × IsFiles others t
unfolding sys_close
sys_close-IsFiles {others} fd s v = elim (Bool-cases (leb nr_open fd)) [
  | inl bad ↦ (einval, s, ground (arith, bad), v)
  | inr good ↦ elim (Option-cases (fd_at s fd)) [
    | inl closed ↦ (
      einval,
      record s { close_on_exec = set s.close_on_exec fd false },
      ground (arith, good, closed),
      record { fds = v.fds; files = v.files; counted = v.counted; fits = v.fits },
    )
    | inr (f, e) ↦ close f (ground (arith, good)) e
  ]
]
  where
    now : ℕ → List ℕ → Files
    now f put = record {
      filp = set s.filp fd none;
      close_on_exec = set s.close_on_exec fd false;
      file_table = set_count s f ((file_at s f).f_count - 1);
      put = put;
    }

    close :
        (f : ℕ)
        → fd < nr_open
        → fd_at s fd ≡ some f
        → (n : ℕ) × (t : Files) × (sys_close fd s ≡ done n t) × IsFiles others t
    close f h e =
        let (in_table, used, _) = open_file s fd f v h e in
        let w : (put : List ℕ) → IsFiles others (now f put) = λ put. record {
          fds = length-set s.filp fd none ∙ v.fds;
          files = length-set s.file_table f _ ∙ v.files;
          counted = λ g. closed-count s v fd f h g e;
          fits = v.fits;
        } in
        elim (Bool-cases ((file_at s f).f_count == 1)) [
          | inl last ↦
              (0, now f ((file_at s f).f_inode ∷ s.put), ground (arith, h, e, used, last), w _)
          | inr more ↦ (0, now f s.put, ground (arith, h, e, used, more), w _)
        ]
