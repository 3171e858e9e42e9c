-- ===== src/Harness/Constraint/Lifecycle.antt =====
-- internal/core/harness/constraint.go: the states of a constraint, and what holds of it there.
use keelage.Prelude.{◌≡◌, Bool, true, false, not, ◌&&◌, List, ◌++◌, all, is_nil, arith}
use keelage.Prelude.Text.{is_empty}
use keelage.Core.Event.{ok, replay}
use keelage.Core.Aggregate.{after_elim, run, run_induction}
use keelage.Core.Std.{Std}
use keelage.Core.Actor.{Ident, is_zero}
use keelage.Core.Level.{valid}
use keelage.Core.ScopeKey.{ScopeKey, key_eq, contains}
use keelage.Core.ScopeKey
use keelage.Core.Anchor.{is_anchor}
use keelage.Core.Context.{Time, DecideContext}
use keelage.Harness.Constraint.State.{
  ConstraintState, Constraint, no_constraint, ConstraintCommand, ConstraintEvent,
}
use keelage.Harness.Constraint.Decide.{valid_kind, is_autonomy, may_verify, exists, decide, apply}
use keelage.Harness.Constraint.Accepted.{
  draft-Drafts, rebind-Rebinds, promote-Promotes, demote-Demotes, verify-Verifies,
  supersede-Supersedes, retire-Retires,
}

-- The states that the program reaches: `StateReview` and `StateStale` are none of them.
abbrev pub IsReached : ConstraintState → Type 0
IsReached ConstraintState.absent = Unit
IsReached ConstraintState.generated = Unit
IsReached ConstraintState.verified = Unit
IsReached ConstraintState.retired = Unit
IsReached ConstraintState.review = ⊥
IsReached ConstraintState.stale = ⊥

module _ ⦃go : Std⦄ where
  -- What holds of a constraint that was drafted.
  pub record IsWellFormed (c : Constraint) : Type 0 where
    pub id : is_zero c.id ≡ false
    pub kind : valid_kind c.kind ≡ true
    pub scope : ScopeKey.is_valid c.scope ≡ true
    pub body : is_empty c.body ≡ false
    pub source : (not c.authored && is_nil c.origin) ≡ false
    pub anchors : all is_anchor c.anchors ≡ true
    pub level : is_autonomy c.kind ≡ true → valid c.level ≡ true

  pub record IsSound (c : Constraint) : Type 0 where
    pub reached : IsReached c.state
    pub well_formed : exists c ≡ true → IsWellFormed c

  promoted_source :
      (authored : Bool) (origin : List Ident)
      → is_nil origin ≡ false
      → (not authored && is_nil origin) ≡ false
  promoted_source authored origin h = ground arith

  restate :
      (c : Constraint) (next : ConstraintState) (by : Ident) (at : Time)
      → IsWellFormed c
      → IsWellFormed (record c { state = next; superseded_by = by; updated_at = at })
  restate c next by at w = record {
    id = w.id;
    kind = w.kind;
    scope = w.scope;
    body = w.body;
    source = w.source;
    anchors = w.anchors;
    level = w.level;
  }

  verified_exists : (c : Constraint) → may_verify c.state ≡ true → exists c ≡ true
  verified_exists c h = ground arith

  decide-IsSound :
      (c : Constraint) (cmd : ConstraintCommand) (ctx : DecideContext) (evs : List ConstraintEvent)
      → IsSound c
      → decide c cmd ctx ≡ ok evs
      → IsSound (replay apply c evs)
  unfolding decide replay apply
  decide-IsSound c (ConstraintCommand.draft m) ctx evs i h =
      let k = draft-Drafts c m ctx h in
      rw k.events (record {
        reached = tt;
        well_formed = λ _. record {
          id = k.id;
          kind = k.kind;
          scope = k.scope;
          body = k.body;
          source = k.source;
          anchors = k.anchors;
          level = λ a. (k.level a).0;
        };
      })
  decide-IsSound c (ConstraintCommand.verify cmd) ctx evs i h =
      let k = verify-Verifies c ctx h in
      let w = i.well_formed (verified_exists c k.state) in
      rw k.events (record {
        reached = tt;
        well_formed = λ _. restate c ConstraintState.verified c.superseded_by ctx.now w;
      })
  decide-IsSound c (ConstraintCommand.promote m) ctx evs i h =
      let k = promote-Promotes c m ctx h in
      rw k.events (record {
        reached = i.reached;
        well_formed = λ e.
            let w = i.well_formed e in
            record {
              id = w.id;
              kind = w.kind;
              scope = k.scope;
              body = w.body;
              source = promoted_source c.authored (c.origin ++ m.origin) k.source;
              anchors = w.anchors;
              level = w.level;
            };
      })
  decide-IsSound c (ConstraintCommand.demote m) ctx evs i h =
      let k = demote-Demotes c m ctx h in
      rw k.events (record {
        reached = i.reached;
        well_formed = λ e.
            let w = i.well_formed e in
            record {
              id = w.id;
              kind = w.kind;
              scope = k.scope;
              body = w.body;
              source = w.source;
              anchors = w.anchors;
              level = w.level;
            };
      })
  decide-IsSound c (ConstraintCommand.supersede cmd by) ctx evs i h =
      let k = supersede-Supersedes c by ctx h in
      let w = i.well_formed k.active.exists in
      rw k.events
        (record { reached = tt; well_formed = λ _. restate c ConstraintState.retired by ctx.now w })
  decide-IsSound c (ConstraintCommand.retire cmd reason) ctx evs i h =
      let k = retire-Retires c reason ctx h in
      let w = i.well_formed k.active.exists in
      rw k.events (record {
        reached = tt;
        well_formed = λ _. restate c ConstraintState.retired c.superseded_by ctx.now w;
      })
  decide-IsSound c (ConstraintCommand.rebind cmd anchors) ctx evs i h =
      let k = rebind-Rebinds c anchors ctx h in
      rw k.events (record {
        reached = i.reached;
        well_formed = λ e.
            let w = i.well_formed e in
            record {
              id = w.id;
              kind = w.kind;
              scope = w.scope;
              body = w.body;
              source = w.source;
              anchors = k.valid_anchors;
              level = w.level;
            };
      })
  decide-IsSound c (ConstraintCommand.other kind) ctx evs i h = ground arith

  -- Whatever commands a stream of a constraint is sent, the constraint is absent, generated,
  -- verified or retired, never under review and never stale. Where it exists it has an id, a known
  -- kind, a body, a valid scope, anchors that all parse, a source (it is authored or it has
  -- judgments that it came from) and, if it declares autonomy, a valid level.
  pub run_constraint-IsSound :
      (history : List (ConstraintCommand × DecideContext))
      → IsSound (run decide apply no_constraint history)
  run_constraint-IsSound history =
      run_induction decide apply IsSound
        (λ c cmd ctx i.
          after_elim decide apply IsSound c cmd ctx i (λ evs h. decide-IsSound c cmd ctx evs i h))
        no_constraint history (record { reached = tt; well_formed = λ e. ground arith })
