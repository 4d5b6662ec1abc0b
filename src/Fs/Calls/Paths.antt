-- ===== src/Fs/Calls/Paths.antt =====
-- fs/namei.c: get_dir, dir_namei and namei.
use linux_0_11_read.Prelude.{
  ℕ, ◌/◌, ◌%◌, List, [], ◌∷◌, Option, none, some, Bool, true, false, ◌&&◌, ◌||◌, ◌==◌,
  if◌then◌else◌, Kernel,
}
use linux_0_11_read.Fs.Calls.Action.{pure, gets, stop_machine, ◌>>=◌, ◌>>◌, choose, when_found}
use linux_0_11_read.Fs.Calls.Interface.{Node, inode, Files}

-- The names in a path that a slash follows, and what is behind the last one.
unfoldable pub path_parts : List ℕ → List (List ℕ) × List ℕ
path_parts [] = ([], [])
path_parts (c ∷ path) =
    let (dirs, last) = path_parts path in
    if c == b'/' then ([] ∷ dirs, last) else elim dirs as (λ d. List (List ℕ) × List ℕ) [
      | [] ↦ ([], c ∷ last)
      | dir ∷ more ↦ ((c ∷ dir) ∷ more, last)
    ]

abbrev pub is_kind : ℕ → ℕ → Bool
is_kind kind mode = mode / 4096 % 16 == kind

abbrev pub is_dir : ℕ → Bool
is_dir mode = is_kind 4 mode

abbrev pub is_blank : List ℕ → Bool
is_blank [] = true
is_blank (c ∷ name) = false

module _ {S : Type 0} (ops : Files S) (now : ℕ) where
  open ops use {
    uses, node, set_node, root, pwd, permission, hold, iget, iput, brelse, find_entry, number_of,
  }

  unfoldable pub update : ℕ → (Node → Node) → Kernel S (Unit {0})
  update i change = gets (λ s. node s i) >>= λ n. set_node i (change n)

  -- The loop of `get_dir`.
  unfoldable pub walk : List (List ℕ) → ℕ → Kernel S (Option ℕ)
  walk [] i = do
    ok ← gets (λ s. is_dir (node s i).i_mode && permission s i 1)
    choose ok (pure (some i)) (do iput i; pure none)
  walk (name ∷ names) i = do
    ok ← gets (λ s. is_dir (node s i).i_mode && permission s i 1)
    choose ok
        (do
          (dir, found) ← find_entry i name
          when_found found (do iput dir; pure none)
              (λ entry. do
                nr ← gets (λ s. number_of s entry)
                dev ← gets (λ s. (node s dir).i_dev)
                brelse entry.buffer
                iput dir
                next ← iget dev nr
                when_found next (pure none) (λ j. walk names j)))
        (do iput i; pure none)

  -- No root or working directory: there is none, or its `i_count` is 0.
  abbrev pub is_lost : Option ℕ → S → Bool
  is_lost none s = true
  is_lost (some i) s = uses s (inode i) == 0

  abbrev pub start_at : Option ℕ → List ℕ → Kernel S (Option ℕ)
  start_at at path = when_found at stop_machine (λ i. do hold i; walk (path_parts path).0 i)

  unfoldable pub get_dir : List ℕ → Kernel S (Option ℕ)
  get_dir path = do
    lost ← gets (λ s. is_lost (root s) s || is_lost (pwd s) s)
    top ← gets root
    here ← gets pwd
    choose lost stop_machine (elim path [
      | [] ↦ pure none
      | c ∷ rest ↦ choose (c == b'/') (start_at top rest) (start_at here (c ∷ rest))
    ])

  -- The directory, and the name within it.
  unfoldable pub dir_namei : List ℕ → Kernel S (Option ℕ × List ℕ)
  dir_namei path = do dir ← get_dir path; pure (dir, (path_parts path).1)

  unfoldable pub namei : List ℕ → Kernel S (Option ℕ)
  namei path = do
    (at, name) ← dir_namei path
    when_found at (pure none) (λ dir0. choose (is_blank name) (pure (some dir0)) (do
      (dir, found) ← find_entry dir0 name
      when_found found (do iput dir; pure none)
          (λ entry. do
            nr ← gets (λ s. number_of s entry)
            dev ← gets (λ s. (node s dir).i_dev)
            brelse entry.buffer
            iput dir
            got ← iget dev nr
            when_found got (pure none) (λ i. do
              update i (λ n. record n { i_atime = now; i_dirt = true })
              pure (some i)))))
