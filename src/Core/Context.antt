-- ===== src/Core/Context.antt =====
-- internal/core/context.go: the facts that `Decide` is given, as values.
use keelage.Prelude.{ℕ, Bool, List, ltb, ◌==◌, ◌*◌}
use keelage.Prelude.Int.{ℤ, pos}
use keelage.Prelude.Text.{Text, contains_text}
use keelage.Core.Actor.{Ident, ActorRef}
use keelage.Core.Level.{Level}

-- `time.Time`, as the nanoseconds since Go's zero time.
abbrev pub Time : Type 0
Time = ℕ

-- `time.Duration`, in nanoseconds. Those of a policy are not negative.
abbrev pub Duration : Type 0
Duration = ℕ

-- `t.Before(u)`.
abbrev pub before : Time → Time → Bool
before t u = ltb t u

-- `t.IsZero()`.
abbrev pub time_is_zero : Time → Bool
time_is_zero t = t == 0

pub record Policy : Type 0 where
  pub promotion_min_outcomes : ℤ
  pub outcome_window : Duration
  pub gate_ttl : Duration

abbrev pub hour : Duration
hour = 3600 * 1000000000

abbrev pub default_policy : Policy
default_policy = record {
  promotion_min_outcomes = pos 10;
  outcome_window = 24 * hour;
  gate_ttl = 1 * hour;
}

pub record DecideContext : Type 0 where
  pub now : Time
  pub actor : ActorRef
  pub autonomy : Level
  pub cap : Level
  pub policy : Policy
  pub judges : List Ident
  pub constraints_hash : Text

-- `RequiresJudge`.
unfoldable pub requires_judge : DecideContext → Ident → Bool
requires_judge c id = contains_text c.judges id
