-- ===== src/Fs/Bitmap/Zero.antt =====
-- The search of a bitmap finds the first bit that is 0.
use mathlib.Core.Option.{some-injective}
use linux_0_11_read.Prelude.{
  ℕ, zero, suc, ◌+◌, ◌*◌, ◌≤◌, ◌<◌, ◌≡◌, ◌⊎◌, inl, inr, sym, subst, List, Option, none, some, Bool,
  true, false, ltb, arith, Bool-cases, Option-cases,
}
use linux_0_11_read.Fs.Bitmap.{
  MapBlock, map_block, first_clear, find_word, find_first_zero, find_block,
}

-- `k` is the first bit from `base` on that is 0, below `base + n`.
pub record IsFirstClear (bits : ℕ → Bool) (base n k : ℕ) : Type 0 where
  pub from : base ≤ k
  pub to : k < base + n
  pub is_clear : bits k ≡ false
  pub set_before : (j : ℕ) → base ≤ j → j < k → bits j ≡ true

abbrev AllSet : (ℕ → Bool) → ℕ → ℕ → Type 0
AllSet bits base n = (j : ℕ) → base ≤ j → j < base + n → bits j ≡ true

first_clear-some :
    (bits : ℕ → Bool) (n base : ℕ) {k : ℕ}
    → first_clear bits n base ≡ some k
    → IsFirstClear bits base n k
unfolding first_clear
first_clear-some bits zero base e = absurd (ground arith)
first_clear-some bits (suc n) base {k} e = elim (Bool-cases (bits base)) [
  | inl h ↦
      let ih = first_clear-some bits n (base + 1) (rw h at e) in
      record {
        from = omega (arith, ih.from);
        to = omega (arith, ih.to);
        is_clear = ih.is_clear;
        set_before = λ j a b. ground (arith, h, ih.set_before j, a, b);
      }
  | inr h ↦
      let same : base ≡ k = ground (arith, rw h at e) in
      record {
        from = omega (arith, same);
        to = omega (arith, same);
        is_clear = rw (sym same) h;
        set_before = λ j a b. absurd (omega (arith, same, a, b));
      }
]

first_clear-none :
    (bits : ℕ → Bool) (n base : ℕ) → first_clear bits n base ≡ none → AllSet bits base n
unfolding first_clear
first_clear-none bits zero base e = λ j a b. absurd (omega (arith, a, b))
first_clear-none bits (suc n) base e = λ j a b. elim (Bool-cases (bits base)) [
  | inl h ↦ let ih = first_clear-none bits n (base + 1) (rw h at e) in ground (arith, h, ih j, a, b)
  | inr h ↦ absurd (ground (arith, rw h at e))
]

-- The words from `base` on: the first bit that is 0, or the end.
find_word-IsFirstClear :
    (bits : ℕ → Bool) (words base : ℕ)
    → IsFirstClear bits base (words * 32) (find_word bits words base)
      ⊎ ((find_word bits words base ≡ base + words * 32) × AllSet bits base (words * 32))
unfolding find_word
find_word-IsFirstClear bits zero base = inr (omega arith, λ j a b. absurd (omega (arith, a, b)))
find_word-IsFirstClear bits (suc words) base = elim (Option-cases (first_clear bits 32 base)) [
  | inr (k, e) ↦
      rw (e, find_word)
        (let h = first_clear-some bits 32 base e in
          inl (record {
            from = h.from;
            to = omega (arith, h.to);
            is_clear = h.is_clear;
            set_before = h.set_before;
          }))
  | inl e ↦
      rw (e, find_word)
        (let full = first_clear-none bits 32 base e in
          elim (find_word-IsFirstClear bits words (base + 32)) [
            | inl h ↦ inl (record {
              from = omega (arith, h.from);
              to = omega (arith, h.to);
              is_clear = h.is_clear;
              set_before = λ j a b. ground (arith, full j, h.set_before j, a, b);
            })
            | inr (end, more) ↦
                inr (omega (arith, end), λ j a b. ground (arith, full j, more j, a, b))
          ])
]

find_first_zero-IsFirstClear :
    (bits : ℕ → Bool)
    → ltb (find_first_zero bits) 8192 ≡ true
    → IsFirstClear bits 0 8192 (find_first_zero bits)
find_first_zero-IsFirstClear bits hit = elim (find_word-IsFirstClear bits 256 0) [
  | inl f ↦ f
  | inr (end, _) ↦ absurd (ground (arith, end, hit))
]

-- What `find_block` has found: a block, and its first bit that is 0.
pub record Found (m : List (Option MapBlock)) (b : MapBlock) (i j : ℕ) : Type 0 where
  pub there : map_block m i ≡ some b
  pub first : IsFirstClear b.bits 0 8192 j

pub find_block-Found :
    (m : List (Option MapBlock)) (n i : ℕ) {b : MapBlock} {k j : ℕ}
    → find_block m n i ≡ some (b, k, j)
    → (i ≤ k) × (k < i + n) × Found m b k j
unfolding find_block
find_block-Found m zero i e = absurd (ground arith)
find_block-Found m (suc n) i {b} {k} {j} e = elim (Option-cases (map_block m i)) [
  | inl h ↦
      let (from, to, f) = find_block-Found m n (i + 1) (rw (h, find_block) at e) in
      (omega (arith, from), omega (arith, to), f)
  | inr (c, h) ↦ elim (Bool-cases (ltb (find_first_zero c.bits) 8192)) [
    | inr full ↦
        let (from, to, f) = find_block-Found m n (i + 1) (rw (h, full, find_block) at e) in
        (omega (arith, from), omega (arith, to), f)
    | inl hit ↦
        let same : (c, i, find_first_zero c.bits) ≡ (b, k, j) =
          some-injective _ _ (rw (h, hit, find_block) at e) in
        subst (λ x. (i ≤ x.1) × (x.1 < i + suc n) × Found m x.0 x.1 x.2) same
          (
            omega arith,
            omega arith,
            record { there = h; first = find_first_zero-IsFirstClear c.bits hit },
          )
  ]
]
