-- ===== src/FakeId0.antt =====
-- src/extension/fake_id0/fake_id0.c: the identity that a tracee is shown, and how system calls
-- change it. A `uid_t` and a `gid_t` are patterns of 32 bits; the `32` variants of the system
-- calls do the same.
pub mod Drop
pub mod Groups
pub mod Start
use improot.Base.{
  ℕ, suc, ◌+◌, ◌*◌, ◌-◌, ◌^◌, ◌/◌, ◌%◌, Bool, true, false, not, ◌&&◌, ◌||◌, Option, none, some,
  List, [], ◌∷◌, ltb, leb, ◌==◌, if◌then◌else◌, Text,
}
use improot.Path.{Errno, eperm}

-- The user's or the group's ids of `Config`: `ruid`, `euid`, `suid`, `fsuid`, or those of a group.
pub record Ids : Type 0 where
  pub r : ℕ
  pub e : ℕ
  pub s : ℕ
  pub fs : ℕ

-- `Config`; `groups` is the whole array.
pub record Config : Type 0 where
  pub uids : Ids
  pub gids : Ids
  pub ngroups : ℕ
  pub groups : List ℕ
  pub umask : ℕ
  pub caps_active : Bool
  pub keep_caps : Bool

-- `UNSET_ID`
abbrev pub unset_id : ℕ → Bool
unset_id id = id == 2 ^ 32 - 1

-- `UNCHANGED_ID`
abbrev pub unchanged_id : ℕ → ℕ → Bool
unchanged_id id own = unset_id id || (id == own)

-- `EQUALS_ANY_ID`
abbrev pub equals_any_id : ℕ → Ids → Bool
equals_any_id id ids = (id == ids.r) || (id == ids.e) || (id == ids.s)

abbrev pub is_privileged : Config → Bool
is_privileged config = (config.uids.e == 0) || config.caps_active

-- `prev_root`
abbrev pub has_root : Ids → Bool
has_root uids = (uids.r == 0) || (uids.e == 0) || (uids.s == 0)

-- `MAYBE_DROP_CAPS`
unfoldable pub maybe_drop_caps : Bool → Config → Config
maybe_drop_caps prev_root config =
    if prev_root && not config.keep_caps && not (has_root config.uids)
    then record config { caps_active = false }
    else config

-- The ids that `SETXID` leaves, unless it returns -EPERM.
unfoldable pub setxid : Bool → ℕ → Ids → Option Ids
setxid privileged id ids =
    if not (privileged || (id == ids.r) || (id == ids.e) || (id == ids.s))
    then none
    else if privileged
    then some (record { r = id; e = id; s = id; fs = id })
    else some (record ids { e = id; fs = id })

-- The second half of `SETREXID`, when the effective id was handled.
unfoldable pub with_real : ℕ → ℕ → Ids → Ids
with_real r e ids =
    if unset_id r
    then ids
    else if unset_id e
    then record ids { r = r }
    else record ids { r = r; s = e }

-- `SETREXID`
unfoldable pub setrexid : Bool → ℕ → ℕ → Ids → Option Ids
unfolding with_real
setrexid privileged r e ids =
    let allowed =
      privileged
      || (unchanged_id e ids.e && unchanged_id r ids.r)
      || ((r == ids.e) && ((e == ids.r) || unchanged_id e ids.e))
      || ((e == ids.r) && ((r == ids.e) || unchanged_id r ids.r))
      || ((e == ids.s) && unchanged_id r ids.r) in
    if not allowed
    then none
    else if unset_id e
    then some (with_real r e ids)
    else if not (e == ids.r)
    then some (with_real r e (record ids { s = e; e = e; fs = e }))
    else some (with_real r e (record ids { e = e; fs = e }))

-- An id that is set only if it is given.
abbrev pub or_own : ℕ → ℕ → ℕ
or_own id own = if unset_id id then own else id

-- `SETRESXID`
unfoldable pub setresxid : Bool → ℕ → ℕ → ℕ → Ids → Option Ids
setresxid privileged r e s ids =
    let allowed =
      privileged
      || ((unset_id r || equals_any_id r ids)
          && (unset_id e || equals_any_id e ids)
          && (unset_id s || equals_any_id s ids)) in
    if not allowed
    then none
    else some (record {
      r = or_own r ids.r;
      e = or_own e ids.e;
      s = or_own s ids.s;
      fs = or_own e ids.fs;
    })

-- `SETFSXID`
unfoldable pub setfsxid : Bool → ℕ → Ids → Ids
setfsxid privileged fs ids =
    if privileged || (fs == ids.fs) || equals_any_id fs ids then record ids { fs = fs } else ids

-- How a handler ends: with an error, with a result that it has put in the registers, or with the
-- registers as they were.
pub data Handled : Type 0 where
  refused : Errno → Handled
  poked : ℕ → Handled
  untouched : Handled

-- What the macros do with the ids that they leave.
unfoldable pub set_uids : Config → Option Ids → Handled × Config
unfolding maybe_drop_caps
set_uids config none = (refused eperm, config)
set_uids config (some ids) =
    (poked 0, maybe_drop_caps (has_root config.uids) (record config { uids = ids }))

unfoldable pub set_gids : Config → Option Ids → Handled × Config
unfolding maybe_drop_caps
set_gids config none = (refused eperm, config)
set_gids config (some ids) =
    (poked 0, maybe_drop_caps (has_root config.uids) (record config { gids = ids }))

-- The system calls on the identity, with their arguments; a prctl(2) has the result that the
-- kernel gave.
pub data IdSyscall : Type 0 where
  pr_setuid pr_setgid pr_setfsuid pr_setfsgid pr_umask : ℕ → IdSyscall
  pr_setreuid pr_setregid : ℕ → ℕ → IdSyscall
  pr_setresuid pr_setresgid : ℕ → ℕ → ℕ → IdSyscall
  pr_prctl : ℕ → ℕ → ℕ → IdSyscall
  pr_getuid pr_getgid pr_geteuid pr_getegid : IdSyscall

abbrev pub pr_set_keepcaps : ℕ
pr_set_keepcaps = 8

abbrev pub id_t : ℕ → ℕ
id_t register = register % 2 ^ 32

-- `handle_sysexit_end`, on these calls.
unfoldable pub handle_sysexit_end : IdSyscall → Config → Handled × Config
unfolding set_uids set_gids setxid setrexid setresxid setfsxid
handle_sysexit_end (pr_setuid id) config =
    set_uids config (setxid (is_privileged config) (id_t id) config.uids)
handle_sysexit_end (pr_setgid id) config =
    set_gids config (setxid (is_privileged config) (id_t id) config.gids)
handle_sysexit_end (pr_setreuid r e) config =
    set_uids config (setrexid (is_privileged config) (id_t r) (id_t e) config.uids)
handle_sysexit_end (pr_setregid r e) config =
    set_gids config (setrexid (is_privileged config) (id_t r) (id_t e) config.gids)
handle_sysexit_end (pr_setresuid r e s) config =
    set_uids config (setresxid (is_privileged config) (id_t r) (id_t e) (id_t s) config.uids)
handle_sysexit_end (pr_setresgid r e s) config =
    set_gids config (setresxid (is_privileged config) (id_t r) (id_t e) (id_t s) config.gids)
handle_sysexit_end (pr_setfsuid fs) config = (
  poked (config.uids).fs,
  record config { uids = setfsxid (is_privileged config) (id_t fs) config.uids },
)
handle_sysexit_end (pr_setfsgid fs) config = (
  poked (config.gids).fs,
  record config { gids = setfsxid (is_privileged config) (id_t fs) config.gids },
)
handle_sysexit_end (pr_prctl op arg result) config = (
  untouched,
  if (result % 2 ^ 32 == 0) && (op % 2 ^ 32 == pr_set_keepcaps)
      then record config { keep_caps = not (arg == 0) }
      else config,
)
handle_sysexit_end pr_getuid config = (poked (config.uids).r, config)
handle_sysexit_end pr_getgid config = (poked (config.gids).r, config)
handle_sysexit_end pr_geteuid config = (poked (config.uids).e, config)
handle_sysexit_end pr_getegid config = (poked (config.gids).e, config)
handle_sysexit_end (pr_umask mask) config =
    (poked config.umask, record config { umask = mask % 2 ^ 32 })

-- `handle_sigsys`, on these calls: the ones that it names do the same as above.
unfoldable pub handle_sigsys : IdSyscall → Config → Handled × Config
unfolding handle_sysexit_end
handle_sigsys (pr_setuid id) config = handle_sysexit_end (pr_setuid id) config
handle_sigsys (pr_setgid id) config = handle_sysexit_end (pr_setgid id) config
handle_sigsys (pr_setreuid r e) config = handle_sysexit_end (pr_setreuid r e) config
handle_sigsys (pr_setregid r e) config = handle_sysexit_end (pr_setregid r e) config
handle_sigsys (pr_setresuid r e s) config = handle_sysexit_end (pr_setresuid r e s) config
handle_sigsys (pr_setresgid r e s) config = handle_sysexit_end (pr_setresgid r e s) config
handle_sigsys _ config = (untouched, config)

abbrev pub s_isuid : ℕ
s_isuid = 2048

abbrev pub s_isgid : ℕ
s_isgid = 1024

abbrev pub has_bit : ℕ → ℕ → Bool
has_bit mode bit = (mode / bit) % 2 == 1

abbrev pub execute_uid : ℕ → Config → Config
execute_uid mode config =
    if has_bit mode s_isuid
    then record config { uids = record (config.uids) { e = 0; s = 0 }; caps_active = true }
    else config

abbrev pub execute_gid : ℕ → Config → Config
execute_gid mode config =
    if has_bit mode s_isgid
    then record config { gids = record (config.gids) { e = 0; s = 0 } }
    else config

-- `handle_sysexit_start` after an execve(2) that succeeded: with the mode of the program, if
-- stat(2) gives one.
unfoldable pub handle_sysexit_start : Option ℕ → Config → Config
handle_sysexit_start none config = record config { keep_caps = false }
handle_sysexit_start (some mode) config =
    execute_gid mode (execute_uid mode (record config { keep_caps = false }))
