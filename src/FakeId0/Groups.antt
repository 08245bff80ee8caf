-- ===== src/FakeId0/Groups.antt =====
-- src/extension/fake_id0/fake_id0.c: setgroups(2) and getgroups(2), which `handle_sysenter_end`
-- answers. The tracee's memory is read at addresses, and what is written is a list of addresses
-- and values.
use improot.Base.{
  ℕ, zero, suc, ◌+◌, ◌*◌, ◌-◌, ◌^◌, ◌%◌, Bool, true, false, not, ◌&&◌, ◌||◌, Option, none, some,
  List, [], ◌∷◌, ltb, leb, ◌==◌, if◌then◌else◌, get_or, set_elem,
}
use improot.Path.{Errno, eperm, einval}
use improot.FakeId0.{Config, Handled, refused, poked}

-- The width of a group, in bytes.
abbrev pub width : Bool → ℕ
width true = 2
width false = 4

-- A group as it is read.
abbrev pub widened : Bool → ℕ → ℕ
widened true g16 = if g16 == 2 ^ 16 - 1 then 2 ^ 32 - 1 else g16
widened false g = g

abbrev pub narrowed : Bool → ℕ → ℕ
narrowed true g = g % 2 ^ 16
narrowed false g = g % 2 ^ 32

module _ (is_16bit : Bool) (list_addr : ℕ) where
  abbrev pub address : ℕ → ℕ
  address i = list_addr + i * width is_16bit

  -- The loop of setgroups(2), over `n` more groups.
  unfoldable pub read_groups : (ℕ → ℕ) → ℕ → ℕ → List ℕ → List ℕ
  read_groups peek zero i groups = groups
  read_groups peek (suc n) i groups =
      read_groups peek n (suc i) (set_elem groups i (widened is_16bit (peek (address i))))

  -- `PR_setgroups`
  unfoldable pub setgroups : (ℕ → ℕ) → ℕ → Config → Handled × Config
  unfolding read_groups
  setgroups peek register config =
      let size = register % 2 ^ 32 in
      if not (config.gids.e == 0) && not config.caps_active
      then (refused eperm, config)
      else if leb (2 ^ 31) size || ltb 64 size
      then (refused einval, config)
      else (
        poked 0,
        record config { ngroups = size; groups = read_groups peek size 0 config.groups },
      )

  -- The loop of getgroups(2): the error of a write, and what was written before it.
  unfoldable pub write_groups : (ℕ → Option Errno) → ℕ → ℕ → List ℕ → Option Errno × List (ℕ × ℕ)
  write_groups fault zero i groups = (none, [])
  write_groups fault (suc n) i groups =
      let rest = write_groups fault n (suc i) groups in
      elim (fault (address i)) [
        | some e ↦ (some e, [])
        | none ↦ (rest.0, (address i, narrowed is_16bit (get_or groups i 0)) ∷ rest.1)
      ]

  unfoldable pub groups_written :
      ℕ → Config → Option Errno × List (ℕ × ℕ) → Handled × Config × List (ℕ × ℕ)
  groups_written count config (none, writes) = (poked count, config, writes)
  groups_written count config (some e, writes) = (refused e, config, writes)

  unfoldable pub getgroups_sized :
      (ℕ → Option Errno) → ℕ → ℕ → Config → Handled × Config × List (ℕ × ℕ)
  unfolding groups_written
  getgroups_sized fault size count config =
      if size == 0
      then (poked count, config, [])
      else if leb (2 ^ 31) size || ltb size count
      then (refused einval, config, [])
      else groups_written count config (write_groups fault count 0 config.groups)

  -- `PR_getgroups`
  unfoldable pub getgroups : (ℕ → Option Errno) → ℕ → Config → Handled × Config × List (ℕ × ℕ)
  getgroups fault register config =
      let size = register % 2 ^ 32 in
      if (config.ngroups == 0) && (config.gids.e == 0)
      then getgroups_sized fault size 1
          (record config { ngroups = 1; groups = set_elem config.groups 0 0 })
      else getgroups_sized fault size config.ngroups config

-- The groups in the tracee's memory, from the `i`th on.
abbrev pub listed : (ℕ → ℕ) → (ℕ → ℕ) → ℕ → ℕ → List (ℕ × ℕ)
listed target value zero i = []
listed target value (suc n) i = (target i, value i) ∷ listed target value n (suc i)

module _ (is_16bit : Bool) (peek : ℕ → ℕ) (list_addr : ℕ) where
  abbrev value : ℕ → ℕ
  value i = widened is_16bit (peek (address is_16bit list_addr i))
