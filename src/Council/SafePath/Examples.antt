-- ===== src/Council/SafePath/Examples.antt =====
-- The path checks of internal/council/engine.go on paths.
use ai_council.Prelude.{ℕ, ◌≡◌, refl, true, false, List, ◌∷◌, codes}
use ai_council.Council.SafePath.{unix, is_safe_relative_path, is_safe_work_dir}

abbrev path : List ℕ
path = codes " src/a.b/..c "

safe : is_safe_relative_path unix path ≡ true
unfolding is_safe_relative_path
safe = refl

backslash : is_safe_relative_path unix (0x5c ∷ codes "..") ≡ false
unfolding is_safe_relative_path
backslash = refl

dot : is_safe_work_dir unix (codes " . ") ≡ true
unfolding is_safe_work_dir
dot = refl
