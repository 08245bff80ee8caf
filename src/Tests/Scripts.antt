-- ===== src/Tests/Scripts.antt =====
-- Runs of `extract_shebang`, and the theorems on it at inputs.
use improot.Base.{◌≡◌, refl, none, [], ◌∷◌, ◌++◌, arith, Text, codes}
use improot.Path.{enoexec}
use improot.Canon.{answer}
use improot.Shebang.{
  Shebang, found, no_script, fails, text_in, trimmed_tail, trimmed, slurp_argument, slurp_path,
  skip_leading, magic_read, extract_shebang,
}
use improot.Shebang.Reads.{extract_shebang-line, extract_shebang-cut}
use improot.Shebang.Bounds.{FitsIn, extract_shebang-FitsIn}

extract : Text → Shebang
unfolding extract_shebang magic_read skip_leading slurp_path slurp_argument text_in trimmed
    trimmed_tail
extract bytes = extract_shebang 256 (answer (record { bytes = bytes; read_error = none }))

elf : extract (codes "ELF") ≡ no_script
unfolding extract
elf = refl

empty_line : extract (codes "#!") ≡ fails enoexec
unfolding extract
empty_line = refl

alone : extract (codes "#!/bin/sh" ++ (10 ∷ codes "ls")) ≡ found (codes "/bin/sh") []
unfolding extract
alone = refl

-- Without an end of line the argument is lost.
argument_lost : extract (codes "#!/bin/sh -x") ≡ found (codes "/bin/sh") []
unfolding extract
argument_lost = refl

extract_shebang-line_example :
    extract (codes "#! /sh -x y " ++ (10 ∷ codes "ls")) ≡ found (codes "/sh") (codes "-x y")
unfolding extract
extract_shebang-line_example =
    extract_shebang-line 256 none (codes " ") b'/' (codes "sh") (ground arith) (ground arith) b' '
      [] b'-' (codes "x y") (codes " ") (codes "ls") (ground arith) (ground arith) (ground arith)
      (ground arith) (ground arith) (omega arith)

extract_shebang-cut_example : extract (codes "#!/bin/sh") ≡ found (codes "/bin/s") []
unfolding extract
extract_shebang-cut_example =
    extract_shebang-cut 256 [] b'/' (codes "bin/s") b'h' tt (ground arith) (ground arith)
      (omega arith)

extract_shebang-FitsIn_example :
    FitsIn 8
      (extract_shebang 8 (answer (record { bytes = codes "#!/bin/sh -x"; read_error = none })))
extract_shebang-FitsIn_example =
    extract_shebang-FitsIn 8 (answer (record { bytes = codes "#!/bin/sh -x"; read_error = none }))
      (omega arith)
