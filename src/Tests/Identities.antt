-- ===== src/Tests/Identities.antt =====
-- Runs of the fake identity, and the theorems on it at inputs.
use improot.Base.{
  ℕ, ◌-◌, ◌^◌, ◌≡◌, refl, true, false, none, some, List, [], ◌∷◌, arith, replicate, codes,
}
use improot.Path.{eperm}
use improot.FakeId0.{
  Config, refused, poked, maybe_drop_caps, setxid, setrexid, setresxid, setfsxid, with_real,
  set_uids, set_gids, IdSyscall, pr_setuid, pr_setreuid, pr_setresuid, pr_setregid, pr_prctl,
  pr_set_keepcaps, handle_sysexit_end, handle_sysexit_start,
}
use improot.FakeId0.Drop.{IsDropped, Confined, after_calls, after_calls-IsDropped}
use improot.FakeId0.Groups.{setgroups, getgroups, getgroups_sized}
use improot.FakeId0.Start.{initialize, all_ids}

abbrev root_config : Config
root_config = record {
  uids = all_ids 0;
  gids = all_ids 0;
  ngroups = 1;
  groups = replicate 64 0;
  umask = 18;
  caps_active = true;
  keep_caps = false;
}

abbrev user_config : Config
user_config = record root_config { uids = all_ids 1000; caps_active = false }

abbrev minus_one : ℕ
minus_one = 2 ^ 32 - 1

run : List IdSyscall → Config → Config
unfolding handle_sysexit_end set_uids set_gids maybe_drop_caps setxid setrexid setresxid setfsxid
    with_real
run calls config = after_calls calls config

drops : run (pr_setresuid 1000 1000 1000 ∷ []) root_config ≡ user_config
unfolding run
drops = refl

refuses : (handle_sysexit_end (pr_setuid 0) user_config).0 ≡ refused eperm
unfolding handle_sysexit_end set_uids setxid
refuses = refl

-- With an effective id that was changed before, a real id alone leaves the saved id as it was, and
-- root comes back.
saved_id_stays :
    (run
      (pr_setresuid 0 1000 0 ∷ pr_setreuid 1000 minus_one ∷ pr_setresuid 0 0 0 ∷ [])
      root_config).uids
    ≡ all_ids 0
unfolding run
saved_id_stays = refl

-- The capability that PR_SET_KEEPCAPS kept outlives an execve(2).
kept_over_exec : Config
unfolding handle_sysexit_start run
kept_over_exec =
    handle_sysexit_start none
      (run (pr_prctl pr_set_keepcaps 1 0 ∷ pr_setresuid 1000 1000 1000 ∷ []) root_config)

capability_stays : kept_over_exec.caps_active ≡ true
unfolding kept_over_exec
capability_stays = refl

starts : initialize (λ text. some 0) 1000 1000 (replicate 64 0) (codes "0:0") ≡ root_config
unfolding initialize
starts = refl

user_config-IsDropped : IsDropped user_config
user_config-IsDropped = ground arith

after_calls-IsDropped_example :
    IsDropped (run (pr_setuid 0 ∷ pr_setreuid 0 1000 ∷ pr_setregid 5 5 ∷ []) user_config)
    × Confined user_config
        (run (pr_setuid 0 ∷ pr_setreuid 0 1000 ∷ pr_setregid 5 5 ∷ []) user_config)
unfolding run
after_calls-IsDropped_example =
    after_calls-IsDropped (pr_setuid 0 ∷ pr_setreuid 0 1000 ∷ pr_setregid 5 5 ∷ []) user_config
      user_config-IsDropped

-- Root that has no groups is shown one.
no_groups_set : Config
unfolding setgroups
no_groups_set = (setgroups false 4096 (λ a. a) 0 root_config).1

one_group_shown : (getgroups false 8192 (λ a. none) 0 no_groups_set).0 ≡ poked 1
unfolding getgroups getgroups_sized no_groups_set
one_group_shown = refl
