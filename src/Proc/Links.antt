-- ===== src/Proc/Links.antt =====
-- What `readlink_proc` answers: a text to canonicalize, or a resolved path.
use improot.Base.{
  ℕ, ◌+◌, ◌≡◌, sym, refl, inl, inr, Bool, true, false, not, List, [], ◌∷◌, ◌++◌, arith, Bool-cases,
  All, All-append, Option, none, some, ◌==◌, leb, Text, slash, strlen, codes, text_eq, drop,
  length-append, eq_of_text_eq, if◌then◌else◌,
}
use mathlib.Core.Path.{subst}
use improot.Path.{
  Comparison, paths_are_equal, path1_is_prefix, path2_is_prefix, paths_are_not_comparable,
  compare_paths, path_max, is_equal,
}
use improot.Path.Components.{Components, render}
use improot.Path.Names.{IsName, IsResolved, IsText, IsPath, All-component}
use improot.Path.Join.{render-snoc}
use improot.Path.Compare.{compare_components, compare_paths-render}
use improot.Binding.{text_or_nil, get_root}
use improot.Proc.{
  Tracee, find_tracee, get_tracee, Action, default, canonicalize, dont_canonicalize, failed, proc,
  proc_pid, substitute_link, tracee_link, fd_link, readlink_pid, readlink_inside, readlink_proc,
}
use improot.Proc.Numbers.{atoi, is_number}
use improot.Proc.Pids.{proc_pid-IsText, in_proc, normalize_base-in_proc}

-- What an answer of `readlink_proc` is good for.
abbrev pub IsUsable : Action → Type 0
IsUsable default = Unit
IsUsable (canonicalize t) = IsText t
IsUsable (dont_canonicalize t) = IsPath t
IsUsable (failed e) = Unit

-- The texts of a tracee that its links in /proc show.
pub record IsKnown (t : Tracee) : Type 0 where
  pub exe : IsText t.exe
  pub cwd : IsText t.fs.cwd
  pub root : IsText (text_or_nil (get_root t.fs))

substitute_link-IsUsable : (t : Text) → IsText t → IsUsable (substitute_link t)
unfolding substitute_link
substitute_link-IsUsable t h = elim (Bool-cases (leb path_max (strlen t))) [
  | inl e ↦ rw e tt
  | inr ne ↦ rw ne h
]

if-IsUsable : (b : Bool) (x y : Action) → IsUsable x → IsUsable y → IsUsable (if b then x else y)
if-IsUsable true x y hx hy = hx
if-IsUsable false x y hx hy = hy

find_tracee-IsKnown :
    (pid : ℕ) (ts : List Tracee) {t : Tracee}
    → All IsKnown ts
    → find_tracee pid ts ≡ some t
    → IsKnown t
unfolding find_tracee
find_tracee-IsKnown pid [] h e = cc
find_tracee-IsKnown pid (x ∷ ts) h e = elim (Bool-cases (x.pid == pid)) [
  | inl hit ↦ subst IsKnown (cc (rw (hit, find_tracee) at e)) h.0
  | inr miss ↦ find_tracee-IsKnown pid ts h.1 (rw (miss, find_tracee) at e)
]

pub tracee_link-IsUsable :
    (o : Option Tracee) (name : Text)
    → ((t : Tracee) → o ≡ some t → IsKnown t)
    → IsUsable (tracee_link o name)
unfolding tracee_link
tracee_link-IsUsable none name h = tt
tracee_link-IsUsable (some t) name h =
    let k = h t refl in
    if-IsUsable (text_eq name (codes "exe")) _ _ (substitute_link-IsUsable t.exe k.exe) (
      if-IsUsable (text_eq name (codes "cwd")) _ _ (substitute_link-IsUsable t.fs.cwd k.cwd)
        (if-IsUsable (text_eq name (codes "root")) _ _ (substitute_link-IsUsable _ k.root) tt))

-- A numbered file of a process is a name behind its directory.
fd_link-IsUsable :
    (c : Text) (bs : Components) (name : Text)
    → All IsName (c ∷ bs)
    → IsName name
    → IsUsable (fd_link (in_proc c bs) name)
unfolding fd_link
fd_link-IsUsable c bs name h hn = elim (Bool-cases (not (is_number name))) [
  | inl e ↦ rw e tt
  | inr ne ↦ rw ne (elim (Bool-cases (leb path_max (strlen (in_proc c bs) + 1 + strlen name))) [
    | inl long ↦ rw long tt
    | inr short ↦ rw short (
      (
        codes "proc" ∷ c ∷ (bs ++ name ∷ []),
        (proc-IsName, (h.0, All-append IsName bs (name ∷ []) h.1 (hn, tt))),
        sym (render-snoc (codes "proc" ∷ c ∷ bs) name),
      ),
      ground (arith, length-append (in_proc c bs) (slash ∷ name)),
    )
  ])
]
  where
    proc-IsName : IsName (codes "proc")
    proc-IsName = ground arith

module _ (tracee : Tracee) (tracees : List Tracee) (known : IsKnown tracee)
    (all : All IsKnown tracees) where
  pub get_tracee-IsKnown :
      (pid : ℕ) (t : Tracee) → get_tracee tracee tracees pid ≡ some t → IsKnown t
  unfolding get_tracee
  get_tracee-IsKnown pid t e = elim (Bool-cases (tracee.pid == pid)) [
    | inl hit ↦ subst IsKnown (cc (rw (hit, get_tracee) at e)) known
    | inr miss ↦ find_tracee-IsKnown pid tracees all (rw (miss, get_tracee) at e)
  ]

  readlink_pid-IsUsable :
      (c : Text) (bs : Components) (name : Text) (pid : ℕ)
      → All IsName (c ∷ bs)
      → IsName name
      → IsUsable (readlink_pid tracee tracees (in_proc c bs) name pid)
  unfolding readlink_pid
  readlink_pid-IsUsable c bs name pid h hn =
      if-IsUsable (pid == 0) _ _ tt (links (compare_paths (proc_pid pid) (in_proc c bs)))
    where
      links :
          (o : Comparison)
          → IsUsable (elim o [
            | paths_are_equal ↦ tracee_link (get_tracee tracee tracees pid) name
            | path1_is_prefix ↦
                if is_equal (compare_paths (proc_pid pid ++ codes "/fd") (in_proc c bs))
                then fd_link (in_proc c bs) name
                else default
            | _ ↦ default
          ])
      links paths_are_equal = tracee_link-IsUsable _ name (get_tracee-IsKnown pid)
      links path1_is_prefix =
          if-IsUsable (is_equal (compare_paths (proc_pid pid ++ codes "/fd") (in_proc c bs)))
            (fd_link (in_proc c bs) name) default (fd_link-IsUsable c bs name h hn) tt
      links path2_is_prefix = tt
      links paths_are_not_comparable = tt

  readlink_inside-IsUsable :
      (c : Text) (bs : Components) (name : Text)
      → All IsName (c ∷ bs)
      → IsName name
      → IsUsable (readlink_inside tracee tracees (in_proc c bs) name)
  unfolding readlink_inside
  readlink_inside-IsUsable c bs name h hn =
      let (d, hd, e) = normalize_base-in_proc tracee c bs h.0 in
      rw e (elim (Bool-cases (leb path_max (strlen (in_proc d bs)))) [
        | inl long ↦ rw long tt
        | inr short ↦
            rw short (readlink_pid-IsUsable d bs name (atoi (drop 6 (in_proc d bs))) (hd, h.1) hn)
      ])

  -- Every text that `readlink_proc` puts in place of a link in /proc is one to canonicalize that
  -- is not empty, or a resolved path that fits the buffer, for a resolved base and a name, when the
  -- known tracees have an executable, a working directory and a root.
  pub readlink_proc-IsUsable :
      (base name : Text)
      → IsResolved base
      → IsName name
      → IsUsable (readlink_proc tracee tracees base name (compare_paths proc base))
  unfolding compare_components
  readlink_proc-IsUsable base name (cs, hcs, e) hn =
      subst (λ b. IsUsable (readlink_proc tracee tracees b name (compare_paths proc b))) (sym e)
        (subst (λ o. IsUsable (readlink_proc tracee tracees (render cs) name o))
          (sym (compare_paths-render (codes "proc" ∷ []) cs (ground arith) (All-component cs hcs)))
          (answers cs hcs))
    where
      below :
          (c : Text) (cs : Components)
          → codes "proc" ≡ c
          → All IsName (c ∷ cs)
          → IsUsable
              (readlink_proc tracee tracees (render (c ∷ cs)) name (compare_components [] cs))
      below c [] e h =
          unfold readlink_proc compare_components in
          if-IsUsable (text_eq name (codes "self")) (canonicalize (proc_pid tracee.pid)) default
            (proc_pid-IsText tracee.pid) tt
      below c (d ∷ bs) e h =
          subst
            (λ a. IsUsable (
              readlink_proc tracee tracees (render (a ∷ d ∷ bs)) name
                (compare_components [] (d ∷ bs))))
            e (unfold readlink_proc compare_components in readlink_inside-IsUsable d bs name h.1 hn)

      answers :
          (cs : Components)
          → All IsName cs
          → IsUsable (
              readlink_proc tracee tracees
                (render cs)
                name
                (compare_components (codes "proc" ∷ []) cs))
      answers [] h = unfold readlink_proc compare_components in tt
      answers (c ∷ cs) h = elim (Bool-cases (text_eq (codes "proc") c)) [
        | inl e ↦ rw (e, compare_components) (below c cs (eq_of_text_eq (codes "proc") c e) h)
        | inr ne ↦ rw (ne, compare_components) (unfold readlink_proc in tt)
      ]
