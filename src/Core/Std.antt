-- ===== src/Core/Std.antt =====
-- What the program takes from Go's standard library without a definition here: `path.Match`,
-- `path.Clean` and `strings.ToUpper`. Everything holds whatever they compute.
use keelage.Prelude.{Bool, Option}
use keelage.Prelude.Text.{Text}

pub record Std : Type 0 where
  -- `path.Match(pattern, name)`, `none` for ErrBadPattern.
  pub path_match : Text → Text → Option Bool
  pub path_clean : Text → Text
  pub to_upper : Text → Text
