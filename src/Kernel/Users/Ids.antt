-- ===== src/Kernel/Users/Ids.antt =====
-- Which ids a process can give itself.
use linux_0_11_read.Prelude.{ℕ, ◌%◌, ◌^◌, ◌<◌, ◌≡◌, ◌≢◌, ◌⊎◌, inl, inr, refl, ◌∙◌, arith}
use linux_0_11_read.Kernel.Process.{Process, eperm}
use linux_0_11_read.Kernel.Users.{sys_setregid, sys_setreuid}

-- Each id is an unsigned short.
pub record HasIds (p : Process) : Type 0 where
  pub uid : p.uid < 2 ^ 16
  pub euid : p.euid < 2 ^ 16
  pub gid : p.gid < 2 ^ 16
  pub egid : p.egid < 2 ^ 16
  pub sgid : p.sgid < 2 ^ 16

-- `a` is one of the two ids of `p`.
abbrev pub IsOneOf : ℕ → ℕ → ℕ → Type 0
IsOneOf a x y = (a ≡ x) ⊎ (a ≡ y)

cut : (n : ℕ) → n < 2 ^ 16 → n % 2 ^ 16 ≡ n
cut n h = omega (arith, h)

-- A process whose ids are cut to 16 bits is the same process.
same_uid : (p : Process) → HasIds p → record p { uid = p.uid % 2 ^ 16 } ≡ p
same_uid p v = rw (cut p.uid v.uid) refl

same_gid : (p : Process) → HasIds p → record p { gid = p.gid % 2 ^ 16 } ≡ p
same_gid p v = rw (cut p.gid v.gid) refl

-- A sys_setreuid of a process with 16-bit ids whose effective user id is not 0 leaves it with user
-- ids that are two of its own, and one that fails returns EPERM and leaves the process as it was.
pub sys_setreuid-IsOneOf :
    (ruid euid : ℕ) (p : Process)
    → HasIds p
    → p.euid ≢ 0
    → let (result, q) = sys_setreuid ruid euid p in
      IsOneOf q.uid p.uid p.euid
      × IsOneOf q.euid p.uid p.euid
      × (result ≢ 0 → (result ≡ eperm) × (q ≡ p))
unfolding sys_setreuid
sys_setreuid-IsOneOf ruid euid p v ordinary = (
  ground (arith, v.uid, v.euid),
  ground (arith, v.uid, v.euid),
  λ bad. (ground (arith, bad), ground (arith, bad, same_uid p v)),
)

pub sys_setregid-IsOneOf :
    (rgid egid : ℕ) (p : Process)
    → HasIds p
    → p.euid ≢ 0
    → let (result, q) = sys_setregid rgid egid p in
      (q.gid ≡ p.gid)
      × ((q.egid ≡ p.egid) ⊎ IsOneOf q.egid p.gid p.sgid)
      × (result ≢ 0 → (result ≡ eperm) × (q ≡ p))
unfolding sys_setregid
sys_setregid-IsOneOf rgid egid p v ordinary = (
  ground (arith, v.gid),
  ground (arith, v.egid, v.gid, v.sgid),
  λ bad. (ground (arith, bad), ground (arith, bad, same_gid p v)),
)

-- The calls on ids, in any order.
pub data Calls (p : Process) : Process → Type 0 where
  none_yet : Calls p p
  reuid : {q : Process} → Calls p q → (ruid euid : ℕ) → Calls p (sys_setreuid ruid euid q).1
  regid : {q : Process} → Calls p q → (rgid egid : ℕ) → Calls p (sys_setregid rgid egid q).1

-- What the calls leave of the ids.
pub record HasOwnIds (p q : Process) : Type 0 where
  pub uid : IsOneOf q.uid p.uid p.euid
  pub euid : IsOneOf q.euid p.uid p.euid
  pub gid : q.gid ≡ p.gid
  pub egid : (q.egid ≡ p.egid) ⊎ IsOneOf q.egid p.gid p.sgid
  pub sgid : q.sgid ≡ p.sgid

sys_setreuid-groups :
    (ruid euid : ℕ) (p : Process)
    → let q = (sys_setreuid ruid euid p).1 in
      (q.gid ≡ p.gid) × (q.egid ≡ p.egid) × (q.sgid ≡ p.sgid)
unfolding sys_setreuid
sys_setreuid-groups ruid euid p = (ground arith, ground arith, ground arith)

sys_setregid-users :
    (rgid egid : ℕ) (p : Process)
    → let q = (sys_setregid rgid egid p).1 in
      (q.uid ≡ p.uid) × (q.euid ≡ p.euid) × (q.sgid ≡ p.sgid)
unfolding sys_setregid
sys_setregid-users rgid egid p = (ground arith, ground arith, ground arith)

HasOwnIds-HasIds : {p q : Process} → HasIds p → HasOwnIds p q → HasIds q
HasOwnIds-HasIds v o = record {
  uid = ground (arith, o.uid, v.uid, v.euid);
  euid = ground (arith, o.euid, v.uid, v.euid);
  gid = ground (arith, o.gid, v.gid);
  egid = ground (arith, o.egid, v.gid, v.egid, v.sgid);
  sgid = ground (arith, o.sgid, v.sgid);
}

-- For a process with 16-bit ids whose user ids are not 0, no sequence of calls of sys_setreuid and
-- sys_setregid gives a user id but one of the two that it had, another real group, or an effective
-- group that was none of its three.
pub Calls-HasOwnIds :
    {p q : Process} → HasIds p → p.uid ≢ 0 → p.euid ≢ 0 → Calls p q → HasOwnIds p q
Calls-HasOwnIds v ne ordinary none_yet = record {
  uid = inl refl;
  euid = inr refl;
  gid = refl;
  egid = inl refl;
  sgid = refl;
}
Calls-HasOwnIds {p} v ne ordinary (reuid {q} calls ruid euid) =
    let o = Calls-HasOwnIds v ne ordinary calls in
    let (uid, euid', _) =
      sys_setreuid-IsOneOf ruid euid q (HasOwnIds-HasIds v o) (ground (arith, o.euid)) in
    let (gid, egid, sgid) = sys_setreuid-groups ruid euid q in
    record {
      uid = ground (arith, uid, o.uid, o.euid);
      euid = ground (arith, euid', o.uid, o.euid);
      gid = gid ∙ o.gid;
      egid = ground (arith, egid, o.egid);
      sgid = sgid ∙ o.sgid;
    }
Calls-HasOwnIds {p} v ne ordinary (regid {q} calls rgid egid) =
    let o = Calls-HasOwnIds v ne ordinary calls in
    let (gid, egid', _) =
      sys_setregid-IsOneOf rgid egid q (HasOwnIds-HasIds v o) (ground (arith, o.euid)) in
    let (uid, euid, sgid) = sys_setregid-users rgid egid q in
    record {
      uid = ground (arith, uid, o.uid);
      euid = ground (arith, euid, o.euid);
      gid = gid ∙ o.gid;
      egid = ground (arith, egid', o.egid, o.gid, o.sgid);
      sgid = sgid ∙ o.sgid;
    }
