-- ===== src/Path/Names.antt =====
-- Resolved paths: canonical ones with no `.` or `..` among their names.
use improot.Base.{◌≡◌, ◌≢◌, ◌<◌, false, [], All, All-map, Text, codes, text_eq, strlen}
use improot.Path.{path_max}
use improot.Path.Components.{Components, IsComponent, render}

-- A name that stands for itself.
abbrev pub IsName : Text → Type 0
IsName c = IsComponent c × (text_eq c (codes ".") ≡ false) × (text_eq c (codes "..") ≡ false)

abbrev pub IsResolved : Text → Type 0
IsResolved t = (cs : Components) × All IsName cs × (t ≡ render cs)

-- And it fits a buffer.
abbrev pub IsPath : Text → Type 0
IsPath t = IsResolved t × (strlen t < path_max)

-- A C string that is not empty.
abbrev pub IsText : Text → Type 0
IsText t = (t ≢ []) × All (λ c. c ≢ 0) t

pub All-component : (cs : Components) → All IsName cs → All IsComponent cs
All-component cs h = All-map _ _ cs (λ c p. p.0) h
