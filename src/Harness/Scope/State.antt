-- ===== src/Harness/Scope/State.antt =====
-- internal/core/harness/scope.go: the data of a scope, its commands and its events.
use keelage.Prelude.{ℕ, Bool, false, ◌++◌}
use keelage.Prelude.Int.{ℤ}
use keelage.Prelude.Text.{Text, codes}
use keelage.Core.Actor.{Ident, ActorRef}
use keelage.Core.Level.{Level, l0, max_level, Trigger}
use keelage.Core.ScopeKey.{ScopeKey}
use keelage.Core.ScopeKey
use keelage.Core.Context.{Time}

pub record Scope : Type 0 where
  pub key : ScopeKey
  pub level : Level
  pub cap : Level
  pub initialized : Bool
  pub last_demoted_at : Time
  pub regressions : ℕ
  pub updated_at : Time

-- `ScopeStream`.
unfoldable pub scope_stream : ScopeKey → Text
scope_stream k = codes "scope/" ++ ScopeKey.to_text k

-- `NewScope`.
abbrev pub new_scope : ScopeKey → Scope
new_scope k = record {
  key = k;
  level = l0;
  cap = max_level;
  initialized = false;
  last_demoted_at = 0;
  regressions = 0;
  updated_at = 0;
}

pub record Evidence : Type 0 where
  pub since : Time
  pub outcomes : ℤ
  pub regressions : ℤ

pub record ScopeCmd : Type 0 where
  pub key : ScopeKey
  pub idem : Text

pub record SetAutonomy : Type 0 where
  pub cmd : ScopeCmd
  pub level : Level
  pub change_ref : Ident
  pub evidence : Evidence

pub record SetCap : Type 0 where
  pub cmd : ScopeCmd
  pub cap : Level
  pub change_ref : Ident

pub record RecordRegression : Type 0 where
  pub cmd : ScopeCmd
  pub change_ref : Ident

-- `other` is a command of another aggregate.
pub data ScopeCommand : Type 0 where
  set_autonomy : SetAutonomy → ScopeCommand
  set_cap : SetCap → ScopeCommand
  record_regression : RecordRegression → ScopeCommand
  other : Text → ScopeCommand

pub record AutonomyChanged : Type 0 where
  pub key : ScopeKey
  pub from : Level
  pub to : Level
  pub trigger : Trigger
  pub change_ref : Ident
  pub by : ActorRef
  pub at : Time

pub record CapChanged : Type 0 where
  pub key : ScopeKey
  pub from : Level
  pub to : Level
  pub change_ref : Ident
  pub by : ActorRef
  pub at : Time

pub record ExceptionRaised : Type 0 where
  pub key : ScopeKey
  pub category : Text
  pub change_ref : Ident
  pub level : Level
  pub at : Time

pub data ScopeEvent : Type 0 where
  autonomy_changed : AutonomyChanged → ScopeEvent
  cap_changed : CapChanged → ScopeEvent
  exception_raised : ExceptionRaised → ScopeEvent
  other : Text → ScopeEvent
