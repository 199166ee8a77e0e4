-- ===== src/Shell/Text.antt =====
-- shell/utils.c: splitting a line, and looking for a byte.
use sis_ops.Common.{ℕ, suc, List, [], ◌∷◌, Option, some, none, if◌then◌else◌, ◌==◌}
use sis_ops.Shell.{space}

unfoldable pub skip_spaces : List ℕ → List ℕ
skip_spaces [] = []
skip_spaces (c ∷ r) = let later = skip_spaces r in if c == space then later else c ∷ r

-- The part before the splitter, and what follows it, or nothing if there is no splitter; spaces at
-- the start of the second part are skipped.
unfoldable pub split_line : List ℕ → ℕ → List ℕ × List ℕ
split_line [] d = ([], [])
split_line (c ∷ r) d =
    let more = split_line r d in if c == d then ([], skip_spaces r) else (c ∷ more.0, more.1)

-- The first index of a byte; `none` is -1.
unfoldable pub block_contains : List ℕ → ℕ → Option ℕ
block_contains [] d = none
block_contains (c ∷ r) d =
    let more = block_contains r d in
    if c == d then some 0 else elim more [ none ↦ none | some i ↦ some (suc i) ]
