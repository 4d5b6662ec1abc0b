-- ===== src/Fs/Names/Entries.antt =====
-- The entry that add_entry makes is one that match takes for the name.
use linux_0_11_read.Prelude.{
  ℕ, zero, suc, ◌+◌, ◌-◌, ◌*◌, ◌/◌, ◌%◌, ◌^◌, ◌<◌, ◌≤◌, ◌≡◌, ◌≢◌, ◌⊎◌, refl, subst, ap, ◌∙◌, inl,
  inr, add-zero, List, [], ◌∷◌, ◌++◌, Option, none, some, Bool, true, false, not, ◌&&◌, ◌||◌, ◌==◌,
  ltb, if◌then◌else◌, length, take, replicate, arith, Bool-cases, Halt, Outcome, done, halted,
}
use linux_0_11_read.Fs.Inode.{Store, Mapped, short_at, put_byte, put_short, create_block, zone_at}
use linux_0_11_read.Fs.Inode.Zones.{short_at-put_short}
use linux_0_11_read.Fs.Regular.{put_bytes}
use linux_0_11_read.Fs.Names.{
  name_len, same_bytes, matches, named, extended, add_loop, add_entry, cut_name, is_past, inode_of,
}

length-take_le : (n : ℕ) (xs : List ℕ) → length (take n xs) ≤ n
length-take_le zero xs = omega arith
length-take_le (suc n) [] = omega arith
length-take_le (suc n) (x ∷ xs) = omega (arith, length-take_le n xs)

byte-put_bytes_below :
    (s : Store) (dev b at j : ℕ) (vs : List ℕ)
    → j < at
    → (put_bytes s dev b at vs).byte dev b j ≡ s.byte dev b j
unfolding put_bytes
byte-put_bytes_below s dev b at j [] h = refl
byte-put_bytes_below s dev b at j (v ∷ vs) h =
    byte-put_bytes_below (put_byte s dev b at v) dev b (at + 1) j vs (omega (arith, h))
    ∙ ground (arith, h)

same_bytes-put_bytes :
    (s : Store) (dev b at : ℕ) (cs ds : List ℕ)
    → same_bytes (put_bytes s dev b at (cs ++ ds)) dev b at cs ≡ true
unfolding same_bytes put_bytes
same_bytes-put_bytes s dev b at [] ds = refl
same_bytes-put_bytes s dev b at (c ∷ cs) ds =
    rw
      (
        byte-put_bytes_below (put_byte s dev b at c) dev b (at + 1) at (cs ++ ds) (omega arith),
        same_bytes-put_bytes (put_byte s dev b at c) dev b (at + 1) cs ds,
      )
      (ground arith)

byte-put_bytes_behind :
    (s : Store) (dev b at : ℕ) (cs ds : List ℕ) (d : ℕ)
    → (put_bytes s dev b at (cs ++ d ∷ ds)).byte dev b (at + length cs) ≡ d
unfolding put_bytes
byte-put_bytes_behind s dev b at [] ds d =
    rw (add-zero at) (
      byte-put_bytes_below (put_byte s dev b at d) dev b (at + 1) at ds (omega arith)
      ∙ ground arith)
byte-put_bytes_behind s dev b at (c ∷ cs) ds d =
    rw shift at (byte-put_bytes_behind (put_byte s dev b at c) dev b (at + 1) cs ds d)
  where
    shift : at + 1 + length cs ≡ at + suc (length cs)
    shift = omega arith

byte-put_short :
    (s : Store) (dev b k j v : ℕ)
    → 16 * k + 2 ≤ j
    → (put_short s dev b (8 * k) v).byte dev b j ≡ s.byte dev b j
unfolding put_short
byte-put_short s dev b k j v h = ground (arith, h)

same_bytes-put_short :
    (s : Store) (dev b k v at : ℕ) (cs : List ℕ)
    → 16 * k + 2 ≤ at
    → same_bytes (put_short s dev b (8 * k) v) dev b at cs ≡ same_bytes s dev b at cs
unfolding same_bytes
same_bytes-put_short s dev b k v at [] h = refl
same_bytes-put_short s dev b k v at (c ∷ cs) h =
    rw
      (
        byte-put_short s dev b k at v h,
        same_bytes-put_short s dev b k v (at + 1) cs (omega (arith, h)),
      )
      refl

padded :
    (n : ℕ)
    → n < name_len
    → ◌≡◌ {A = List ℕ} (replicate (name_len - n) 0) (0 ∷ replicate (name_len - n - 1) 0)
padded n h = ap (λ (l : ℕ). replicate {A = ℕ} l 0) split
  where
    split : name_len - n ≡ suc (name_len - n - 1)
    split = omega (arith, h)

-- A run stops or is done.
outcome_cases :
    {A : Type 0} (o : Outcome Mapped A)
    → ((h : Halt) × (t : Mapped) × (o ≡ halted h t)) ⊎ ((a : A) × (t : Mapped) × (o ≡ done a t))
outcome_cases (halted h t) = inl (h, t, refl)
outcome_cases (done a t) = inr (a, t, refl)

module _ (now : ℕ) (readable : ℕ → ℕ → Bool) (new_block : ℕ → Store → ℕ × Store) (v : ℕ)
    (nz : v ≢ 0) (fit : v < 2 ^ 16) where
  -- The entry is matched by the name, once it has the inode v.
  abbrev Matches : List ℕ → ℕ → ℕ → Mapped → Type 0
  Matches name b k t =
      matches (put_short t.store t.inode.i_dev b (8 * k) v) t.inode.i_dev b k name ≡ true

  named-Matches :
      (b k : ℕ) (name : List ℕ) (m : Mapped)
      → length name ≤ name_len
      → Matches name b k (named now readable new_block b k name m)
  unfolding matches
  named-Matches b k name m h = elim (Bool-cases (ltb (length name) name_len)) [
    | inl short ↦
        rw (found, some_inode, fits, short, ended (ground (arith, short)), same) (ground arith)
    | inr long ↦ rw (found, some_inode, fits, long, same) (ground arith)
  ]
    where
      dev : ℕ
      dev = m.inode.i_dev

      text : Store
      text = put_bytes m.store dev b (16 * k + 2) (name ++ replicate (name_len - length name) 0)

      found : short_at (put_short text dev b (8 * k) v) dev b (8 * k) ≡ v
      found = short_at-put_short text dev b (8 * k) v fit

      some_inode : (v == 0) ≡ false
      some_inode = ground (arith, nz)

      fits : ltb name_len (length name) ≡ false
      fits = ground (arith, h)

      same : same_bytes (put_short text dev b (8 * k) v) dev b (16 * k + 2) name ≡ true
      same =
          same_bytes-put_short text dev b k v (16 * k + 2) name (omega arith)
          ∙ same_bytes-put_bytes m.store dev b (16 * k + 2) name
              (replicate (name_len - length name) 0)

      ended :
          length name < name_len
          → (put_short text dev b (8 * k) v).byte dev b (16 * k + 2 + length name) ≡ 0
      ended less =
          byte-put_short text dev b k (16 * k + 2 + length name) v (omega arith)
          ∙ rw (padded (length name) less) (
              byte-put_bytes_behind m.store dev b (16 * k + 2) name
                (replicate (name_len - length name - 1) 0) 0)

  -- The entry of a run, if it has one, is matched by the name.
  unfoldable Finds : List ℕ → Outcome Mapped (Option (ℕ × ℕ)) → Type 0
  Finds name (halted h t) = Unit {0}
  Finds name (done none t) = Unit {0}
  Finds name (done (some (b, k)) t) = Matches name b k t

  -- The block that a round of the loop goes to.
  abbrev made : ℕ → ℕ → Mapped → Outcome Mapped ℕ
  made i b m = if is_past i then create_block now readable new_block (i / 64) m else done b m

  add_loop-Finds :
      (n : ℕ) (name : List ℕ) (i b : ℕ) (m : Mapped)
      → length name ≤ name_len
      → Finds name (add_loop now readable new_block n name i b m)
  unfolding add_loop Finds
  add_loop-Finds zero name i b m short = tt
  add_loop-Finds (suc n) name i b m short = elim (outcome_cases (made i b m)) [
    | inl (h, t, e) ↦ rw (add_loop, e) tt
    | inr (c, t, e) ↦ elim (Bool-cases (c == 0)) [
      | inl z ↦ rw (add_loop, e, z) tt
      | inr z ↦ elim (Bool-cases (is_past i && not (readable t.inode.i_dev c))) [
        | inl past ↦ rw (add_loop, e, z, past) (add_loop-Finds n name (i + 64) b t short)
        | inr here ↦
            let u : Mapped = extended now readable new_block c i t in
            elim (Bool-cases (inode_of u.store u.inode.i_dev c (i % 64) == 0)) [
              | inl free ↦ rw (add_loop, e, z, here, free) (named-Matches c (i % 64) name u short)
              | inr taken ↦
                  rw (add_loop, e, z, here, taken) (add_loop-Finds n name (i + 1) c u short)
            ]
      ]
    ]
  ]

-- When add_entry gives an entry for a name, whatever the directory and the allocator, match takes
-- that entry for the name, cut to 14 characters, once an inode number from 1 to 2^16 - 1 is put
-- into it.
pub add_entry-matches :
    (now : ℕ) (readable : ℕ → ℕ → Bool) (new_block : ℕ → Store → ℕ × Store) (v : ℕ)
    → v ≢ 0
    → v < 2 ^ 16
    → (full : List ℕ) (m t : Mapped) (b k : ℕ)
    → add_entry now readable new_block full m ≡ done (some (b, k)) t
    → matches (put_short t.store t.inode.i_dev b (8 * k) v) t.inode.i_dev b k (cut_name full) ≡ true
unfolding add_entry Finds
add_entry-matches now readable new_block v nz fit full m t b k e =
    subst (λ o. Finds now readable new_block v nz fit (cut_name full) o) e run
  where
    run :
        Finds now readable new_block v nz fit
          (cut_name full)
          (add_entry now readable new_block full m)
    run =
        elim (Bool-cases (
          (length full == 0)
          || (zone_at m.inode 0 == 0)
          || not (readable m.inode.i_dev (zone_at m.inode 0)))) [
            | inl h ↦ rw (h, add_entry) tt
            | inr h ↦
                rw (h, add_entry)
                  (add_loop-Finds now readable new_block v nz fit (m.inode.i_size / 16 + 1)
                    (cut_name full) 0 (zone_at m.inode 0) m (length-take_le name_len full))
          ]
