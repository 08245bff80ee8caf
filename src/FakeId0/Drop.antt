-- ===== src/FakeId0/Drop.antt =====
-- A tracee that has dropped its privileges.
use mathlib.Core.Path.{subst}
use improot.Base.{
  ℕ, sym, ==_iff, ◌≡◌, ◌≢◌, refl, Bool, true, false, not, ◌||◌, Option, none, some, List, [], ◌∷◌,
  ◌==◌, if◌then◌else◌, arith, Bool-cases, inl, inr,
}
use improot.FakeId0.{
  Ids, Config, equals_any_id, is_privileged, has_root, maybe_drop_caps, setxid, with_real, setrexid,
  setresxid, setfsxid, set_uids, set_gids, IdSyscall, pr_setuid, pr_setgid, pr_setfsuid,
  pr_setfsgid, pr_umask, pr_setreuid, pr_setregid, pr_setresuid, pr_setresgid, pr_prctl, pr_getuid,
  pr_getgid, pr_geteuid, pr_getegid, id_t, handle_sysexit_end,
}

-- Every id is one of the real, the effective and the saved id that there were; the id for the file
-- system may also be the one there was.
pub record Within (old new : Ids) : Type 0 where
  pub r : equals_any_id new.r old ≡ true
  pub e : equals_any_id new.e old ≡ true
  pub s : equals_any_id new.s old ≡ true
  pub fs : ((new.fs == old.fs) || equals_any_id new.fs old) ≡ true

Within-refl : (ids : Ids) → Within ids ids
Within-refl ids = ground arith

equals_any_id-Within :
    (a b : Ids) (x : ℕ) → Within a b → equals_any_id x b ≡ true → equals_any_id x a ≡ true
equals_any_id-Within a b x w h = elim (Bool-cases (x == b.r)) [
  | inl same ↦ subst (λ y. equals_any_id y a ≡ true) (sym ((==_iff x b.r).0 same)) w.r
  | inr other ↦ elim (Bool-cases (x == b.e)) [
    | inl same ↦ subst (λ y. equals_any_id y a ≡ true) (sym ((==_iff x b.e).0 same)) w.e
    | inr neither ↦
        let last : (x == b.s) ≡ true = ground arith in
        subst (λ y. equals_any_id y a ≡ true) (sym ((==_iff x b.s).0 last)) w.s
  ]
]

Within-trans : (a b c : Ids) → Within a b → Within b c → Within a c
Within-trans a b c p q = record {
  r = equals_any_id-Within a b c.r p q.r;
  e = equals_any_id-Within a b c.e p q.e;
  s = equals_any_id-Within a b c.s p q.s;
  fs = elim (Bool-cases (c.fs == b.fs)) [
    | inl same ↦
        subst (λ y. ((y == a.fs) || equals_any_id y a) ≡ true) (sym ((==_iff c.fs b.fs).0 same))
          p.fs
    | inr other ↦
        let among : equals_any_id c.fs b ≡ true = or-right (c.fs == b.fs) _ other q.fs in
        or-left (c.fs == a.fs) _ (equals_any_id-Within a b c.fs p among)
  ];
}
  where
    or-right : (x y : Bool) → x ≡ false → (x || y) ≡ true → y ≡ true
    or-right true y e h = absurd (cc)
    or-right false y e h = h

    or-left : (x y : Bool) → y ≡ true → (x || y) ≡ true
    or-left true y h = refl
    or-left false y h = h

abbrev KeepsWithin : Ids → Option Ids → Type 0
KeepsWithin ids none = Unit
KeepsWithin ids (some new) = Within ids new

setxid-Within : (id : ℕ) (ids : Ids) → KeepsWithin ids (setxid false id ids)
unfolding setxid
setxid-Within id ids = ground arith

setrexid-Within : (r e : ℕ) (ids : Ids) → KeepsWithin ids (setrexid false r e ids)
unfolding setrexid with_real
setrexid-Within r e ids = ground arith

setresxid-Within : (r e s : ℕ) (ids : Ids) → KeepsWithin ids (setresxid false r e s ids)
unfolding setresxid
setresxid-Within r e s ids = ground arith

setfsxid-Within : (fs : ℕ) (ids : Ids) → Within ids (setfsxid false fs ids)
unfolding setfsxid
setfsxid-Within fs ids = ground arith

-- No privilege: no user id is root's, and the fake capability is gone.
pub record IsDropped (config : Config) : Type 0 where
  pub r : config.uids.r ≢ 0
  pub e : config.uids.e ≢ 0
  pub s : config.uids.s ≢ 0
  pub caps : config.caps_active ≡ false

-- The ids that one call leaves.
abbrev pub Confined : Config → Config → Type 0
Confined old new = Within old.uids new.uids × Within old.gids new.gids × (new.caps_active ≡ false)

maybe_drop_caps-keeps :
    (prev : Bool) (config : Config)
    → config.caps_active ≡ false
    → ((maybe_drop_caps prev config).uids ≡ config.uids)
      × ((maybe_drop_caps prev config).gids ≡ config.gids)
      × ((maybe_drop_caps prev config).caps_active ≡ false)
unfolding maybe_drop_caps
maybe_drop_caps-keeps prev config h = ground arith

set_uids-Confined :
    (config : Config) (o : Option Ids)
    → config.caps_active ≡ false
    → KeepsWithin config.uids o
    → Confined config (set_uids config o).1
unfolding set_uids
set_uids-Confined config none h w = (Within-refl config.uids, Within-refl config.gids, h)
set_uids-Confined config (some ids) h w =
    let kept = maybe_drop_caps-keeps (has_root config.uids) (record config { uids = ids }) h in
    (
      subst (Within config.uids) (sym kept.0) w,
      subst (Within config.gids) (sym kept.1) (Within-refl config.gids),
      kept.2,
    )

set_gids-Confined :
    (config : Config) (o : Option Ids)
    → config.caps_active ≡ false
    → KeepsWithin config.gids o
    → Confined config (set_gids config o).1
unfolding set_gids
set_gids-Confined config none h w = (Within-refl config.uids, Within-refl config.gids, h)
set_gids-Confined config (some ids) h w =
    let kept = maybe_drop_caps-keeps (has_root config.uids) (record config { gids = ids }) h in
    (
      subst (Within config.uids) (sym kept.0) (Within-refl config.uids),
      subst (Within config.gids) (sym kept.1) w,
      kept.2,
    )

unprivileged : (config : Config) → IsDropped config → is_privileged config ≡ false
unprivileged config d = ground (arith, d.e, d.caps)

unprivileged-KeepsWithin :
    (f : Bool → Ids → Option Ids) (config : Config) (ids : Ids)
    → IsDropped config
    → KeepsWithin ids (f false ids)
    → KeepsWithin ids (f (is_privileged config) ids)
unprivileged-KeepsWithin f config ids d h =
    subst (λ b. KeepsWithin ids (f b ids)) (sym (unprivileged config d)) h

unprivileged-Within :
    (fs : ℕ) (config : Config) (ids : Ids)
    → IsDropped config
    → Within ids (setfsxid (is_privileged config) fs ids)
unprivileged-Within fs config ids d =
    subst (λ b. Within ids (setfsxid b fs ids)) (sym (unprivileged config d))
      (setfsxid-Within fs ids)

keep_caps-Confined :
    (b keep : Bool) (config : Config)
    → IsDropped config
    → Confined config (if b then record config { keep_caps = keep } else config)
keep_caps-Confined true keep config d = (Within-refl config.uids, Within-refl config.gids, d.caps)
keep_caps-Confined false keep config d = (Within-refl config.uids, Within-refl config.gids, d.caps)

step-Confined :
    (call : IdSyscall) (config : Config)
    → IsDropped config
    → Confined config (handle_sysexit_end call config).1
unfolding handle_sysexit_end
step-Confined (pr_setuid a) config d = set_uids-Confined config _ d.caps (
    unprivileged-KeepsWithin (λ b. setxid b (id_t a)) config config.uids d
      (setxid-Within (id_t a) config.uids))
step-Confined (pr_setgid a) config d = set_gids-Confined config _ d.caps (
    unprivileged-KeepsWithin (λ b. setxid b (id_t a)) config config.gids d
      (setxid-Within (id_t a) config.gids))
step-Confined (pr_setreuid a b) config d = set_uids-Confined config _ d.caps (
    unprivileged-KeepsWithin (λ p. setrexid p (id_t a) (id_t b)) config config.uids d
      (setrexid-Within (id_t a) (id_t b) config.uids))
step-Confined (pr_setregid a b) config d = set_gids-Confined config _ d.caps (
    unprivileged-KeepsWithin (λ p. setrexid p (id_t a) (id_t b)) config config.gids d
      (setrexid-Within (id_t a) (id_t b) config.gids))
step-Confined (pr_setresuid a b c) config d = set_uids-Confined config _ d.caps (
    unprivileged-KeepsWithin (λ p. setresxid p (id_t a) (id_t b) (id_t c)) config config.uids d
      (setresxid-Within (id_t a) (id_t b) (id_t c) config.uids))
step-Confined (pr_setresgid a b c) config d = set_gids-Confined config _ d.caps (
    unprivileged-KeepsWithin (λ p. setresxid p (id_t a) (id_t b) (id_t c)) config config.gids d
      (setresxid-Within (id_t a) (id_t b) (id_t c) config.gids))
step-Confined (pr_setfsuid a) config d =
    (unprivileged-Within (id_t a) config config.uids d, Within-refl config.gids, d.caps)
step-Confined (pr_setfsgid a) config d =
    (Within-refl config.uids, unprivileged-Within (id_t a) config config.gids d, d.caps)
step-Confined (pr_prctl op a result) config d = keep_caps-Confined _ (not (a == 0)) config d
step-Confined (pr_umask a) config d = (Within-refl config.uids, Within-refl config.gids, d.caps)
step-Confined pr_getuid config d = (Within-refl config.uids, Within-refl config.gids, d.caps)
step-Confined pr_getgid config d = (Within-refl config.uids, Within-refl config.gids, d.caps)
step-Confined pr_geteuid config d = (Within-refl config.uids, Within-refl config.gids, d.caps)
step-Confined pr_getegid config d = (Within-refl config.uids, Within-refl config.gids, d.caps)

-- The configuration after these system calls.
abbrev pub after_calls : List IdSyscall → Config → Config
after_calls [] config = config
after_calls (call ∷ calls) config = after_calls calls (handle_sysexit_end call config).1

Confined-IsDropped : (old new : Config) → Confined old new → IsDropped old → IsDropped new
Confined-IsDropped old new (uids, gids, caps) d = record {
  r = among (new.uids.r) uids.r;
  e = among (new.uids.e) uids.e;
  s = among (new.uids.s) uids.s;
  caps = caps;
}
  where
    among : (x : ℕ) → equals_any_id x old.uids ≡ true → x ≢ 0
    among x h = ground (arith, h, d.r, d.e, d.s)

calls-Confined :
    (calls : List IdSyscall) (config : Config)
    → IsDropped config
    → Confined config (after_calls calls config)
calls-Confined [] config d = (Within-refl config.uids, Within-refl config.gids, d.caps)
calls-Confined (call ∷ calls) config d =
    let now = (handle_sysexit_end call config).1 in
    let first = step-Confined call config d in
    let (uids, gids, caps) = calls-Confined calls now (Confined-IsDropped config now first d) in
    (
      Within-trans config.uids now.uids _ first.0 uids,
      Within-trans config.gids now.gids _ first.1 gids,
      caps,
    )

-- A drop of privileges is for good: once no user id of a tracee is root's and the fake capability
-- is gone, no sequence of system calls on the identity makes one of them root's or brings the
-- capability back. Each of the real, effective and saved ids, of the user and of the group, stays
-- one of the three that there were when the privileges were dropped, and each id for the file
-- system is one of these or the one that there was.
pub after_calls-IsDropped :
    (calls : List IdSyscall) (config : Config)
    → IsDropped config
    → IsDropped (after_calls calls config) × Confined config (after_calls calls config)
after_calls-IsDropped calls config d =
    let confined = calls-Confined calls config d in
    (Confined-IsDropped config _ confined d, confined)
