-- ===== src/Mm/Tables/Fork.antt =====
-- The inner loop of `copy_page_tables`: a child gets its parent's pages, shared and read-only.
use linux_0_11_read.Prelude.{
  ℕ, zero, suc, ◌+◌, ◌*◌, ◌/◌, ◌%◌, ◌^◌, ◌≤◌, ◌<◌, ◌≡◌, ◌≢◌, ◌⊎◌, ◌&&◌, inl, inr, refl, ◌∙◌, Bool,
  done, arith, ◌==◌, ltb, if◌then◌else◌, get_or, set, length, sub32, ℕ_discrete, get_or-set_self,
  get_or-set_ne, length-set, subst, add-zero,
}
use linux_0_11_read.Mm.Pages.{Mm, low_mem, used, store}
use linux_0_11_read.Mm.Tables.{is_present, and_not_2, copy_entry, copy_table}

-- The entry maps a page whose uses are counted.
abbrev pub is_counted : ℕ → Bool
is_counted e = is_present e && ltb low_mem (and_not_2 e)

abbrev pub nr_of : ℕ → ℕ
nr_of e = sub32 (and_not_2 e) low_mem / 2 ^ 12

-- How many of the `n` entries from address `f` on map the page `i`.
pub sharers : (ℕ → ℕ) → ℕ → ℕ → ℕ → ℕ
sharers w f zero i = 0
sharers w f (suc n) i =
    (if is_counted (w f) && nr_of (w f) == i then 1 else 0) + sharers w (f + 4) n i

-- The `n` entries from `f` on have been copied to those from `c` on: the state went from `s` to `t`.
pub record Copied (s : Mm) (n f c : ℕ) (t : Mm) : Type 0 where
  pub child :
      (j : ℕ)
      → j < n
      → t.word (c + 4 * j) ≡ (
          if is_present (s.word (f + 4 * j))
          then and_not_2 (s.word (f + 4 * j))
          else s.word (c + 4 * j))
  pub parent :
      (j : ℕ)
      → j < n
      → t.word (f + 4 * j) ≡ (
          if is_counted (s.word (f + 4 * j))
          then and_not_2 (s.word (f + 4 * j))
          else s.word (f + 4 * j))
  pub others : (a : ℕ) → (a < f) ⊎ (f + 4 * n ≤ a) → (a < c) ⊎ (c + 4 * n ≤ a) → t.word a ≡ s.word a
  pub counts :
      (i : ℕ)
      → i < length s.mem_map
      → get_or s.mem_map i used < 256
      → get_or t.mem_map i used ≡ (get_or s.mem_map i used + sharers s.word f n i) % 256
  pub size : length t.mem_map ≡ length s.mem_map

one_copied : Mm → ℕ → ℕ → Mm
one_copied s f c =
    let e = and_not_2 (s.word f) in
    if is_present (s.word f)
    then if ltb low_mem e
      then record s {
        word = store (store s.word c e) f e;
        mem_map =
            set s.mem_map (nr_of (s.word f)) ((get_or s.mem_map (nr_of (s.word f)) used + 1) % 256);
      }
      else record s { word = store s.word c e }
    else s

copy_entry_lem : (s : Mm) (f c : ℕ) → copy_entry f c s ≡ done tt (one_copied s f c)
unfolding copy_entry one_copied
copy_entry_lem s f c = ground arith

one_copied_word :
    (s : Mm) (f c a : ℕ)
    → f ≢ c
    → (one_copied s f c).word a ≡ (
        if a == f
        then if is_counted (s.word f) then and_not_2 (s.word f) else s.word f
        else if a == c
        then if is_present (s.word f) then and_not_2 (s.word f) else s.word c
        else s.word a)
unfolding one_copied
one_copied_word s f c a ne = ground arith

one_copied_count :
    (s : Mm) (f c i : ℕ)
    → i < length s.mem_map
    → get_or s.mem_map i used < 256
    → get_or (one_copied s f c).mem_map i used
      ≡ (get_or s.mem_map i used
          + (if is_counted (s.word f) && nr_of (s.word f) == i then 1 else 0))
        % 256
unfolding one_copied
one_copied_count s f c i h byte = elim (ℕ_discrete (nr_of (s.word f)) i) [
  | yes e ↦ ground (arith, get_or-set_self s.mem_map i ((get_or s.mem_map i used + 1) % 256) used)
  | no ne ↦ ground (
    arith,
    get_or-set_ne s.mem_map (nr_of (s.word f)) i
        ((get_or s.mem_map (nr_of (s.word f)) used + 1) % 256) used ne,
  )
]

one_copied_size : (s : Mm) (f c : ℕ) → length (one_copied s f c).mem_map ≡ length s.mem_map
unfolding one_copied
one_copied_size s f c = ground (
  arith,
  length-set s.mem_map (nr_of (s.word f)) ((get_or s.mem_map (nr_of (s.word f)) used + 1) % 256),
)

sharers-eq :
    (v w : ℕ → ℕ) (f n i : ℕ)
    → ((j : ℕ) → j < n → v (f + 4 * j) ≡ w (f + 4 * j))
    → sharers v f n i ≡ sharers w f n i
unfolding sharers
sharers-eq v w f zero i h = refl
sharers-eq v w f (suc n) i h = ground (arith, first, sharers-eq v w (f + 4) n i (λ j p. next j p))
  where
    first : v f ≡ w f
    first = rw (add-zero f) at (h 0 (omega arith))

    next : (j : ℕ) → j < n → v (f + 4 + 4 * j) ≡ w (f + 4 + 4 * j)
    next j p = subst (λ a. v a ≡ w a) (omega arith) (h (suc j) (omega arith))

shift : (f j : ℕ) → f + 4 * suc j ≡ f + 4 + 4 * j
shift f j = omega arith

-- The two ranges of `n` entries do not overlap.
abbrev pub Disjoint : ℕ → ℕ → ℕ → Type 0
Disjoint n f c = (f + 4 * n ≤ c) ⊎ (c + 4 * n ≤ f)

rest-Disjoint : (n f c : ℕ) → Disjoint (suc n) f c → Disjoint n (f + 4) (c + 4)
rest-Disjoint n f c (inl h) = inl (omega arith)
rest-Disjoint n f c (inr h) = inr (omega arith)

module _ (n : ℕ) (s t : Mm) (f c : ℕ) (d : Disjoint (suc n) f c)
    (r : Copied (one_copied s f c) n (f + 4) (c + 4) t) where
  ne : f ≢ c
  ne e = ground arith

  kept_f : (j : ℕ) → j < n → (one_copied s f c).word (f + 4 + 4 * j) ≡ s.word (f + 4 + 4 * j)
  kept_f j p = ground (arith, one_copied_word s f c (f + 4 + 4 * j) ne)

  kept_c : (j : ℕ) → j < n → (one_copied s f c).word (c + 4 + 4 * j) ≡ s.word (c + 4 + 4 * j)
  kept_c j p = ground (arith, one_copied_word s f c (c + 4 + 4 * j) ne)

  step-child :
      (j : ℕ)
      → j < suc n
      → t.word (c + 4 * j) ≡ (
          if is_present (s.word (f + 4 * j))
          then and_not_2 (s.word (f + 4 * j))
          else s.word (c + 4 * j))
  step-child zero h =
      rw (add-zero f, add-zero c) (ground (arith, r.others c, one_copied_word s f c c ne))
  step-child (suc j) h =
      rw (shift f j, shift c j)
        (rw (kept_f j (omega arith), kept_c j (omega arith)) at (r.child j (omega arith)))

  step-parent :
      (j : ℕ)
      → j < suc n
      → t.word (f + 4 * j) ≡ (
          if is_counted (s.word (f + 4 * j))
          then and_not_2 (s.word (f + 4 * j))
          else s.word (f + 4 * j))
  step-parent zero h = rw (add-zero f) (ground (arith, r.others f, one_copied_word s f c f ne))
  step-parent (suc j) h = rw (shift f j) (rw (kept_f j (omega arith)) at (r.parent j (omega arith)))

  step-sharers : (i : ℕ) → sharers (one_copied s f c).word (f + 4) n i ≡ sharers s.word (f + 4) n i
  step-sharers i = sharers-eq (one_copied s f c).word s.word (f + 4) n i kept_f

  step-counts :
      (i : ℕ)
      → i < length s.mem_map
      → get_or s.mem_map i used < 256
      → get_or t.mem_map i used ≡ (get_or s.mem_map i used + sharers s.word f (suc n) i) % 256
  unfolding sharers
  step-counts i h byte =
      ground
        (arith, r.counts i, one_copied_size s f c, one_copied_count s f c i h byte, step-sharers i)

  step-Copied : Copied s (suc n) f c t
  step-Copied = record {
    child = step-child;
    parent = step-parent;
    others = λ a p q. ground (arith, r.others a, one_copied_word s f c a ne);
    counts = step-counts;
    size = r.size ∙ one_copied_size s f c;
  }

-- The inner loop of copy_page_tables returns, for any number of entries and two ranges that do not
-- overlap; the child has every present entry without its write bit, the parent has it without the
-- write bit where the page lies above the first megabyte, the counts go up by the number of
-- entries that map each page (mod 256), and no other word changes.
pub copy_table-Copied :
    (n : ℕ) (s : Mm) (f c : ℕ)
    → Disjoint n f c
    → (t : Mm) × (copy_table n f c s ≡ done tt t) × Copied s n f c t
unfolding copy_table sharers
copy_table-Copied zero s f c d = (
  s,
  refl,
  record {
    child = λ j h. elim h [ ];
    parent = λ j h. elim h [ ];
    others = λ a p q. refl;
    counts = λ i h byte. omega arith;
    size = refl;
  },
)
copy_table-Copied (suc n) s f c d =
    let (t, e, r) =
      copy_table-Copied n (one_copied s f c) (f + 4) (c + 4) (rest-Disjoint n f c d) in
    (t, ground (arith, copy_entry_lem s f c, e), step-Copied n s t f c d r)
