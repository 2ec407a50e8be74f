-- ===== src/EnvCompat/Examples.antt =====
-- Tests and instances for the environment names: only the old name of BIN_DIR is set.
use privacy_lodge.Prelude.{◌≤◌, ◌≡◌, refl, List, [], ◌∷◌, ok, err, if◌then◌else◌}
use privacy_lodge.Text.{Str, codes, str_eq}
use privacy_lodge.EnvCompat.{Env, not_present, quiet, var, warn_once}
use privacy_lodge.EnvCompat.Warnings.{reads_warn_once, reads, times}

abbrev old_only : Env
old_only n =
    if str_eq n (codes "PUREPRIVACY_BIN_DIR") then ok (codes "/opt/bin") else err not_present

abbrev reads_twice : List (Env × Str)
reads_twice = (old_only, codes "BIN_DIR") ∷ (old_only, codes "BIN_DIR") ∷ []

warns : (reads reads_twice quiet).printed ≡ codes "PUREPRIVACY_BIN_DIR" ∷ []
unfolding var warn_once
warns = refl

reads_warn_once_example : times (codes "PUREPRIVACY_BIN_DIR") (reads reads_twice quiet).printed ≤ 1
reads_warn_once_example = reads_warn_once reads_twice (codes "PUREPRIVACY_BIN_DIR")
