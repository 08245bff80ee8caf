-- ===== src/FakeId0/Start.antt =====
-- src/extension/fake_id0/fake_id0.c: the first configuration, and what the fake capability rests on.
use improot.Base.{
  ℕ, ◌%◌, ◌^◌, set_elem, false, Option, none, some, List, [], ◌∷◌, ◌==◌, if◌then◌else◌, Text,
}
use improot.FakeId0.{Ids, Config}

-- What follows the first `:` of a text, if there is one.
unfoldable pub after_colon : Text → Option Text
after_colon [] = none
after_colon (c ∷ text) = if c == b':' then some text else after_colon text

abbrev pub or_else : Option ℕ → ℕ → ℕ
or_else none other = other
or_else (some id) other = id

abbrev pub gid_of : (Text → Option ℕ) → Option Text → Option ℕ
gid_of strtol none = none
gid_of strtol (some text) = strtol text

abbrev pub all_ids : ℕ → Ids
all_ids id = record { r = id; e = id; s = id; fs = id }

-- INITIALIZATION, with what strtol(3) reads, or `none` for an error, and the ids of the program;
-- `groups` is what the array held, which talloc(3) does not clear.
unfoldable pub initialize : (Text → Option ℕ) → ℕ → ℕ → List ℕ → Text → Config
unfolding after_colon
initialize strtol own_uid own_gid groups uid_string =
    let uid = or_else (strtol uid_string) own_uid % 2 ^ 32 in
    let gid = or_else (gid_of strtol (after_colon uid_string)) own_gid % 2 ^ 32 in
    record {
      uids = all_ids uid;
      gids = all_ids gid;
      ngroups = if gid == 0 then 1 else 0;
      groups = if gid == 0 then set_elem groups 0 0 else groups;
      umask = 18;
      caps_active = uid == 0;
      keep_caps = false;
    }
