-- ===== src/Tests/Paths.antt =====
-- Runs of src/path/path.c and of the helpers of src/path/canon.c, and their theorems at inputs.
use improot.Base.{◌+◌, ◌<◌, ◌≡◌, refl, some, [], ◌∷◌, arith, codes, strlen, ltb, if◌then◌else◌}
use improot.Path.{
  path_max, success, failure, enametoolong, path1_is_prefix, compare_paths, join_paths,
  substitute_path_prefix, next_component, component, not_final, final_slash, skip_slashes, name_of,
  skip_name, join_one, join_loop,
}
use improot.Path.Components.{Components, render}
use improot.Path.Compare.{compare_components, compare_paths-render}
use improot.Path.Join.{join_paths-render, join_paths_bound}
use improot.Path.Prefix.{substitute_path_prefix-render}
use improot.Path.Cursor.{Reads, next_component-names}

abbrev usr_bin : Components
usr_bin = codes "usr" ∷ codes "bin" ∷ []

abbrev usr : Components
usr = codes "usr" ∷ []

abbrev opt : Components
opt = codes "opt" ∷ codes "x" ∷ []

compares : compare_paths (codes "/usr") (codes "/usr/bin") ≡ path1_is_prefix
unfolding compare_paths
compares = refl

compare_paths-render_example :
    compare_paths (render usr) (render usr_bin) ≡ compare_components usr usr_bin
compare_paths-render_example = compare_paths-render usr usr_bin (ground arith) (ground arith)

joins :
    join_paths (some (codes "/usr/") ∷ some (codes "/bin") ∷ some (codes "sh") ∷ [])
    ≡ (success, codes "/usr/bin/sh")
unfolding join_paths join_loop join_one
joins = refl

join_paths-render_example : join_paths (some (render usr) ∷ some (codes "bin") ∷ []) ≡ (
    if ltb (strlen (render usr_bin) + 1) path_max
    then (success, render usr_bin)
    else (failure enametoolong, render usr))
join_paths-render_example =
    join_paths-render usr (codes "bin") (ground arith) (ground arith) (omega arith)

join_paths_bound_example :
    strlen (join_paths (some (codes "/usr") ∷ some (codes "bin") ∷ [])).1 + 1 < path_max
join_paths_bound_example = join_paths_bound (some (codes "/usr") ∷ some (codes "bin") ∷ [])

substitute_path_prefix-render_example :
    substitute_path_prefix (render usr_bin) 4 (render opt) 6 ≡ (10, codes "/opt/x/bin")
substitute_path_prefix-render_example =
    substitute_path_prefix-render usr opt (codes "bin" ∷ []) (ground arith) (ground arith)
      (ground arith) (λ e. cc) (omega arith) (omega arith)

reads : next_component (codes "//usr/bin/") ≡ component (codes "usr") not_final (codes "bin/")
unfolding next_component skip_slashes name_of skip_name
reads = refl

next_component-names_example : Reads (codes "bin/") (codes "bin") final_slash []
unfolding next_component skip_slashes name_of skip_name
next_component-names_example =
    next_component-names (codes "bin/") {c = codes "bin"} {f = final_slash} {rest = []}
      (ground arith) refl
