-- ===== src/Fs/Access/Owner.antt =====
-- Who may change the mode and the owner of a file.
use mathlib.Core.Option.{some-injective}
use linux_0_11_read.Prelude.{ℕ, ◌≡◌, ◌≢◌, ◌∙◌, refl, ap, subst, Option, none, some, arith}
use linux_0_11_read.Kernel.Process.{Process}
use linux_0_11_read.Fs.Access.{FileInode, sys_utime, sys_chmod, sys_chown}

-- A process that is neither the owner of the file nor the superuser.
pub record IsStranger (owner : ℕ) (me : Process) : Type 0 where
  pub not_root : me.euid ≢ 0
  pub not_owner : me.euid ≢ owner

-- What calls of such processes make of the inode, in any order.
pub data Calls (inode : FileInode) : FileInode → Type 0 where
  start : Calls inode inode
  utime :
      {j k : FileInode} (result now : ℕ) (times : Option (ℕ × ℕ))
      → Calls inode j
      → sys_utime (some j) times now ≡ (result, some k)
      → Calls inode k
  chmod :
      {j k : FileInode} (me : Process) (result mode : ℕ)
      → Calls inode j
      → IsStranger inode.i_uid me
      → sys_chmod me (some j) mode ≡ (result, some k)
      → Calls inode k
  chown :
      {j k : FileInode} (me : Process) (result uid gid : ℕ)
      → Calls inode j
      → IsStranger inode.i_uid me
      → sys_chown me (some j) uid gid ≡ (result, some k)
      → Calls inode k

pub record HasSameRights (inode j : FileInode) : Type 0 where
  pub mode : j.i_mode ≡ inode.i_mode
  pub owner : j.i_uid ≡ inode.i_uid
  pub group : j.i_gid ≡ inode.i_gid

sys_utime-HasSameRights :
    (j k : FileInode) (result now : ℕ) (times : Option (ℕ × ℕ))
    → sys_utime (some j) times now ≡ (result, some k)
    → HasSameRights j k
unfolding sys_utime
sys_utime-HasSameRights j k result now none e =
    subst (HasSameRights j) (some-injective _ _ (ap (λ x. x.1) e))
      (record { mode = refl; owner = refl; group = refl })
sys_utime-HasSameRights j k result now (some t) e =
    subst (HasSameRights j) (some-injective _ _ (ap (λ x. x.1) e))
      (record { mode = refl; owner = refl; group = refl })

sys_chmod-kept :
    (j k : FileInode) (me : Process) (result mode : ℕ)
    → IsStranger j.i_uid me
    → sys_chmod me (some j) mode ≡ (result, some k)
    → k ≡ j
unfolding sys_chmod
sys_chmod-kept j k me result mode p e = ground (arith, e, p.not_root, p.not_owner)

sys_chown-kept :
    (j k : FileInode) (me : Process) (result uid gid : ℕ)
    → me.euid ≢ 0
    → sys_chown me (some j) uid gid ≡ (result, some k)
    → k ≡ j
unfolding sys_chown
sys_chown-kept j k me result uid gid p e = ground (arith, e, p)

trans_rights : (i j k : FileInode) → HasSameRights i j → HasSameRights j k → HasSameRights i k
trans_rights i j k p q = record {
  mode = q.mode ∙ p.mode;
  owner = q.owner ∙ p.owner;
  group = q.group ∙ p.group;
}

IsStranger-HasSameRights :
    (i j : FileInode) (me : Process)
    → HasSameRights i j
    → IsStranger i.i_uid me
    → IsStranger j.i_uid me
IsStranger-HasSameRights i j me same p = record {
  not_root = p.not_root;
  not_owner = λ e. p.not_owner (e ∙ same.owner);
}

-- Whatever sys_utime, sys_chmod and sys_chown do to a file, in any order, with sys_chmod and
-- sys_chown called by processes whose effective user id is neither 0 nor that of the owner, its
-- mode, its owner and its group stay the same.
pub Calls-HasSameRights : {inode j : FileInode} → Calls inode j → HasSameRights inode j
Calls-HasSameRights start = record { mode = refl; owner = refl; group = refl }
Calls-HasSameRights {inode} (utime {j} {k} result now times c e) =
    trans_rights inode j k (Calls-HasSameRights c) (sys_utime-HasSameRights j k result now times e)
Calls-HasSameRights {inode} (chmod {j} {k} me result mode c p e) =
    let same = Calls-HasSameRights c in
    rw (sys_chmod-kept j k me result mode (IsStranger-HasSameRights inode j me same p) e) same
Calls-HasSameRights {inode} (chown {j} {k} me result uid gid c p e) =
    rw (sys_chown-kept j k me result uid gid p.not_root e) (Calls-HasSameRights c)
