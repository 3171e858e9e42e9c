-- ===== src/Tests/Values.antt =====
-- Inputs that the tests share: a library in which `path.Match` knows literal patterns only.
use keelage.Prelude.{some, []}
use keelage.Prelude.Int.{pos}
use keelage.Prelude.Text.{codes, text_eq}
use keelage.Core.Std.{Std}
use keelage.Core.Actor.{ActorRef, ActorKind}
use keelage.Core.Level.{Level, l3}
use keelage.Core.ScopeKey.{ScopeKey}
use keelage.Core.Context.{Time, DecideContext}

instance abbrev pub literal_std : Std
unfolding text_eq
literal_std = record {
  path_match = λ pattern name. some (text_eq pattern name);
  path_clean = λ p. p;
  to_upper = λ s. s;
}

abbrev pub alice : ActorRef
alice = record { kind = ActorKind.human; id = codes "alice"; key = []; owner = [] }

abbrev pub bot : ActorRef
bot = record { kind = ActorKind.agent; id = codes "bot"; key = []; owner = codes "alice" }

abbrev pub team_scope : ScopeKey
team_scope = record {
  org = codes "acme";
  product = [];
  team = codes "core";
  repo = codes "shop";
  path_glob = codes "src";
  person = [];
}

-- Actor `a` at time `t`, with an effective level.
abbrev pub context : ActorRef → Time → Level → DecideContext
context a t level = record {
  now = t;
  actor = a;
  autonomy = level;
  cap = l3;
  policy = record { promotion_min_outcomes = pos 2; outcome_window = 10; gate_ttl = 5 };
  judges = [];
  constraints_hash = [];
}
