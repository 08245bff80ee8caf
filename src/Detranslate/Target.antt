-- ===== src/Detranslate/Target.antt =====
-- `detranslate_path` on the target of a symlink.
use improot.Base.{
  ℕ, suc, ◌<◌, ◌≡◌, refl, inl, inr, Bool, true, false, not, Option, none, some, List, arith,
  Bool-cases, leb, ◌==◌, if◌then◌else◌, Text, slash, char_at, strlen, drop, take, All,
}
use improot.Path.{enametoolong, path1_is_prefix, path_max, compare_paths}
use improot.Path.Components.{Components, render}
use improot.Path.Names.{IsName, IsText, All-component}
use improot.Binding.{
  Side, FileSystem, head, get_root, text_or_nil, Substituted, not_bound, symmetric, asymmetric,
  get_binding, substitute_binding, belongs_to_guestfs,
}
use improot.Proc.{Tracee, Action, default, canonicalize, dont_canonicalize, readlink_proc, proc}
use improot.Proc.Links.{IsKnown}
use improot.Proc.Shown.{Shows, readlink_proc-Shows}
use improot.Canon.Resolved.{Resolves}
use improot.Detranslate.{
  Sized, sized, failed, last_slash, strip_root, after_substitution, detranslate_with, emulated,
  readlink_proc2, after_emulation, is_prefix, detranslate_link, detranslate_path,
}
use improot.Detranslate.Texts.{Gives, if-Gives, strip_root-Gives, substituted_with-IsText}

-- The root of a guest is a resolved path.
abbrev pub HasRoot : FileSystem → Type 0
HasRoot fs = (rs : Components) × All IsName rs × (text_or_nil (get_root fs) ≡ render rs)

emulated-Gives : (a : Action) (t : Text) → IsText t → Shows a → Gives (emulated a t)
unfolding emulated
emulated-Gives default t p h = p
emulated-Gives (canonicalize u) t p h = h
emulated-Gives (dont_canonicalize u) t p h = p
emulated-Gives (Action.failed e) t p h = p

module _ (fs : FileSystem) (root : HasRoot fs)
    (host : All (Resolves Side.host) (head fs Side.host)) where
  stripped :
      (sanity_check : Bool) (path : Text)
      → IsText path
      → Gives (strip_root sanity_check (text_or_nil (get_root fs)) path)
  stripped sanity_check path p =
      let (rs, hrs, e) = root in
      rw e (strip_root-Gives sanity_check rs path (All-component rs hrs) p)

  after_substitution-Gives :
      (sanity_check : Bool) (path : Text) (s : Substituted × Text)
      → IsText path
      → IsText s.1
      → Gives (after_substitution sanity_check (text_or_nil (get_root fs)) path s)
  unfolding after_substitution
  after_substitution-Gives sanity_check path (not_bound, t) p q = stripped sanity_check path p
  after_substitution-Gives sanity_check path (symmetric, t) p q = q
  after_substitution-Gives sanity_check path (asymmetric, t) p q = q

  detranslate_with-Gives :
      (sanity_check follow_binding : Bool) (path : Text)
      → strlen path < path_max
      → IsText path
      → Gives (detranslate_with fs sanity_check follow_binding path)
  unfolding detranslate_with substitute_binding
  detranslate_with-Gives sanity_check follow_binding path fits p =
      if-Gives follow_binding _ _
        (after_substitution-Gives sanity_check path _ p (
          substituted_with-IsText fs Side.host path (get_binding fs Side.host path) host refl fits
            p))
        (stripped sanity_check path p)

  after_emulation-Gives :
      (path : Text) (s : Sized)
      → strlen path < path_max
      → IsText path
      → Gives s
      → Gives (after_emulation fs path s)
  unfolding after_emulation
  after_emulation-Gives path (failed e) fits p h = tt
  after_emulation-Gives path (sized n t) fits p h =
      if-Gives (n == 0) _ _ (detranslate_with-Gives false true path fits p) h

module _ (tracee : Tracee) (tracees : List Tracee) (known : IsKnown tracee)
    (all : All IsKnown tracees) (root : HasRoot tracee.fs)
    (host : All (Resolves Side.host) (head tracee.fs Side.host)) where
  readlink_proc2-Gives :
      (t referrer : Text) → IsText t → Gives (readlink_proc2 tracee tracees t referrer)
  unfolding readlink_proc2
  readlink_proc2-Gives t referrer p =
      if-Gives (leb path_max (strlen referrer)) (failed enametoolong) _ tt
        (split_at (last_slash referrer 0 none))
    where
      split_at :
          (o : Option ℕ)
          → Gives (elim o [
            | none ↦ sized 0 t
            | some i ↦
                if strlen (drop (suc i) referrer) == 0
                then sized 0 t
                else emulated
                    (readlink_proc tracee tracees
                      (take i referrer)
                      (drop (suc i) referrer)
                      path1_is_prefix)
                    t
          ])
      split_at none = p
      split_at (some i) = if-Gives (strlen (drop (suc i) referrer) == 0) (sized 0 t) _ p (
          emulated-Gives _ t p (
            readlink_proc-Shows tracee tracees known all (take i referrer) (drop (suc i) referrer)))

  detranslate_link-Gives :
      (path referrer : Text)
      → strlen path < path_max
      → IsText path
      → Gives (detranslate_link tracee tracees path referrer)
  unfolding detranslate_link
  detranslate_link-Gives path referrer fits p =
      if-Gives (is_prefix (compare_paths proc referrer)) _ _
        (after_emulation-Gives tracee.fs root host path _ fits p
          (readlink_proc2-Gives path referrer p))
        (if-Gives (not (belongs_to_guestfs tracee.fs referrer)) _ _
          (detranslate_with-Gives tracee.fs root host false _ path fits p)
          (detranslate_with-Gives tracee.fs root host false false path fits p))

  -- From the target of a symlink, whose text is not empty, `detranslate_path` makes a text that is
  -- not empty, whatever symlink of the host it was read from, unless it answers an error. The root
  -- and the two ends of every binding are resolved paths, and the known tracees have an executable
  -- and a working directory.
  pub detranslate_path-Gives :
      (target referrer : Text)
      → IsText target
      → Gives (detranslate_path tracee tracees target (some referrer))
  unfolding detranslate_path
  detranslate_path-Gives target referrer p = elim (Bool-cases (leb path_max (strlen target))) [
    | inl over ↦ rw over tt
    | inr fits ↦ rw fits (
        if-Gives (not (char_at target 0 == slash)) (sized 0 target) _ p
          (detranslate_link-Gives target referrer (ground arith) p))
  ]

  -- The same with no referrer.
  pub detranslate_path-alone :
      (target : Text) → IsText target → Gives (detranslate_path tracee tracees target none)
  unfolding detranslate_path
  detranslate_path-alone target p = elim (Bool-cases (leb path_max (strlen target))) [
    | inl over ↦ rw over tt
    | inr fits ↦ rw fits (
        if-Gives (not (char_at target 0 == slash)) (sized 0 target) _ p
          (detranslate_with-Gives tracee.fs root host true true target (ground arith) p))
  ]
