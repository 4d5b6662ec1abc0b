-- ===== src/Fs/Access/Grants.antt =====
-- Who may do what with a file.
use Prim.Native.Nat.{bit_and}
use linux_0_11_read.Prelude.{
  ℕ, zero, suc, ◌+◌, ◌*◌, ◌/◌, ◌%◌, ◌^◌, ◌≡◌, ◌<◌, ◌≤◌, ℕ_discrete, refl, Bool, true, false, not,
  ◌&&◌, ◌||◌, ◌==◌, if◌then◌else◌, arith, low_bits, ap, sym, ◌∙◌,
}
use linux_0_11_read.Kernel.Process.{Process, suser}
use linux_0_11_read.Fs.Access.{FileInode, has_bits, permission}

-- Bit `k` of a number.
abbrev pub bit : ℕ → ℕ → Bool
bit n k = n / 2 ^ k % 2 == 1

-- Every bit of three that `mask` has is set in `mode`.
abbrev pub covers : ℕ → ℕ → Bool
covers mode mask =
    (not (bit mask 0) || bit mode 0)
    && (not (bit mask 1) || bit mode 1)
    && (not (bit mask 2) || bit mode 2)

iff : Bool → Bool → Bool
iff a b = if a then b else not b

iff-eq : (a b : Bool) → iff a b ≡ true → a ≡ b
unfolding iff
iff-eq true true h = refl
iff-eq true false h = sym h
iff-eq false true h = h
iff-eq false false h = refl

unless : (deleted ok : Bool) → (if deleted then false else ok) ≡ (not deleted && ok)
unless true ok = refl
unless false ok = refl

abbrev agrees : ℕ → ℕ → Bool
agrees x mask = iff (bit_and x mask == mask) (covers x mask)

-- The pairs of three bits up to the one with the number `last`.
agree_up_to : ℕ → Bool
agree_up_to zero = agrees 0 0
agree_up_to (suc last) =
    let before = agree_up_to last in agrees (suc last / 8) (suc last % 8) && before

agree_up_to-agrees :
    (last pair : ℕ) → pair ≤ last → agree_up_to last ≡ true → agrees (pair / 8) (pair % 8) ≡ true
unfolding agree_up_to
agree_up_to-agrees zero pair le all = rw pair_is_0 all
  where
    pair_is_0 : pair ≡ 0
    pair_is_0 = omega (arith, le)
agree_up_to-agrees (suc last) pair le all = elim (ℕ_discrete pair (suc last)) [
  | yes e ↦ rw e (ground (arith, all))
  | no ne ↦ agree_up_to-agrees last pair (omega (arith, le, ne)) (ground (arith, all))
]

agree_all : agree_up_to 63 ≡ true
unfolding agree_up_to iff
agree_all = refl

has_bits-covers : (mode mask : ℕ) → mask < 8 → has_bits mode mask ≡ covers mode mask
has_bits-covers mode mask h = iff-eq _ _ table ∙ low_covers
  where
    x : ℕ
    x = low_bits mode 3

    at_pair : agrees ((x * 8 + mask) / 8) ((x * 8 + mask) % 8) ≡ true
    at_pair = agree_up_to-agrees 63 (x * 8 + mask) (omega (arith, h)) agree_all

    first_of : (x * 8 + mask) / 8 ≡ x
    first_of = omega (arith, h)

    second_of : (x * 8 + mask) % 8 ≡ mask
    second_of = omega (arith, h)

    table : agrees (low_bits mode 3) mask ≡ true
    table = rw (first_of, second_of) at at_pair

    bit_0 : low_bits mode 3 / 2 ^ 0 % 2 ≡ mode / 2 ^ 0 % 2
    bit_0 = omega arith

    bit_1 : low_bits mode 3 / 2 ^ 1 % 2 ≡ mode / 2 ^ 1 % 2
    bit_1 = omega arith

    bit_2 : low_bits mode 3 / 2 ^ 2 % 2 ≡ mode / 2 ^ 2 % 2
    bit_2 = omega arith

    low_covers : covers (low_bits mode 3) mask ≡ covers mode mask
    low_covers = rw (bit_0, bit_1, bit_2) refl

-- The three bits of `i_mode` that count: those of the owner, of the group or of the others.
abbrev pub class_shift : Process → FileInode → ℕ
class_shift me inode = if me.euid == inode.i_uid then 6 else if me.egid == inode.i_gid then 3 else 0

-- For a mask below 8, permission grants it exactly when the file is not a deleted one on a device
-- and either the process is the superuser or every bit of the mask is set among the three bits of
-- the mode that are for the owner, if the process has the effective id of the owner, or else for
-- the group, if it has that of the group, or else for the others.
pub permission-covers :
    (me : Process) (inode : FileInode) (mask : ℕ)
    → mask < 8
    → permission me inode mask ≡ (
        not (not (inode.i_dev == 0) && (inode.i_nlinks == 0))
        && (covers (inode.i_mode / 2 ^ class_shift me inode) mask || suser me))
unfolding permission
permission-covers me inode mask h =
    unless (not (inode.i_dev == 0) && (inode.i_nlinks == 0)) (has_bits mode mask || suser me)
    ∙ ap (λ x. not (not (inode.i_dev == 0) && (inode.i_nlinks == 0)) && (x || suser me))
        (has_bits-covers mode mask h ∙ ap (λ m. covers m mask) shifted)
  where
    mode : ℕ
    mode =
        if me.euid == inode.i_uid
        then inode.i_mode / 2 ^ 6
        else if me.egid == inode.i_gid
        then inode.i_mode / 2 ^ 3
        else inode.i_mode

    shifted : mode ≡ inode.i_mode / 2 ^ class_shift me inode
    shifted = ground arith
