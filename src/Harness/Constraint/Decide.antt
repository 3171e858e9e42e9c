-- ===== src/Harness/Constraint/Decide.antt =====
-- internal/core/harness/constraint.go: `Decide` and `Apply` of a constraint.
use keelage.Prelude.{Bool, true, false, not, ◌&&◌, ◌||◌, List, [], ◌∷◌, ◌++◌, all, is_nil}
use keelage.Prelude.Int.{ltb_ℤ}
use keelage.Prelude.Text.{Text, is_empty, text_eq}
use keelage.Core.Event.{Rejection, Result, ok, err, reject_if, ◌>>◌}
use keelage.Core.Std.{Std}
use keelage.Core.Actor.{Ident, is_zero, is_human}
use keelage.Core.Level.{valid}
use keelage.Core.ScopeKey.{key_eq, contains}
use keelage.Core.ScopeKey
use keelage.Core.Anchor.{is_anchor}
use keelage.Core.Context.{DecideContext}
use keelage.Harness.Constraint.State.{
  ConstraintKind, ConstraintState, Constraint, no_constraint, DraftConstraint, PromoteConstraint,
  DemoteConstraint, ConstraintCommand, ConstraintEvent,
}

-- `ConstraintKind.valid`.
abbrev pub valid_kind : ConstraintKind → Bool
valid_kind (ConstraintKind.other _) = false
valid_kind _ = true

abbrev pub is_autonomy : ConstraintKind → Bool
is_autonomy ConstraintKind.autonomy = true
is_autonomy _ = false

abbrev pub is_absent : ConstraintState → Bool
is_absent ConstraintState.absent = true
is_absent _ = false

abbrev pub is_retired : ConstraintState → Bool
is_retired ConstraintState.retired = true
is_retired _ = false

abbrev pub is_verified : ConstraintState → Bool
is_verified ConstraintState.verified = true
is_verified _ = false

-- The states that `verify` accepts.
abbrev pub may_verify : ConstraintState → Bool
may_verify ConstraintState.generated = true
may_verify ConstraintState.review = true
may_verify ConstraintState.stale = true
may_verify _ = false

-- `c.exists()`.
abbrev pub exists : Constraint → Bool
exists c = not (is_absent c.state)

-- The guards that `rebind`, `demote`, `supersede` and `retire` begin with.
abbrev pub check_active : Constraint → Result (Unit {0})
check_active c = do
  reject_if (not (exists c)) Rejection.not_found
  reject_if (is_retired c.state) Rejection.bad_state

module _ ⦃go : Std⦄ where
  -- The guards of `draft` for a constraint of kind autonomy.
  abbrev pub check_level : DraftConstraint → DecideContext → Result (Unit {0})
  check_level m ctx = do
    reject_if (is_autonomy m.kind && not (valid m.level)) Rejection.invalid
    reject_if (is_autonomy m.kind && ltb_ℤ ctx.cap m.level) Rejection.over_cap

  unfoldable pub draft :
      Constraint → DraftConstraint → DecideContext → Result (List ConstraintEvent)
  draft c m ctx = do
    reject_if (exists c) Rejection.exists
    reject_if (is_zero m.cmd.id) Rejection.invalid
    reject_if (not (valid_kind m.kind)) Rejection.invalid
    reject_if (not (ScopeKey.is_valid m.scope)) Rejection.invalid
    reject_if (is_empty m.body) Rejection.invalid
    reject_if (not m.authored && is_nil m.origin) Rejection.no_origin
    reject_if (not (all is_anchor m.anchors)) Rejection.invalid
    check_level m ctx
    ok (
        ConstraintEvent.constraint_drafted (record {
          id = m.cmd.id;
          kind = m.kind;
          scope = m.scope;
          body = m.body;
          checkable = m.checkable;
          origin = m.origin;
          authored = m.authored;
          explanation = m.explanation;
          level = m.level;
          supersedes = m.supersedes;
          anchors = m.anchors;
          at = ctx.now;
        })
        ∷ [])

  unfoldable pub rebind : Constraint → List Text → DecideContext → Result (List ConstraintEvent)
  rebind c anchors ctx = do
    check_active c
    reject_if (not (all is_anchor anchors)) Rejection.invalid
    ok (ConstraintEvent.constraint_rebound c.id anchors ctx.actor ctx.now ∷ [])

  unfoldable pub promote :
      Constraint → PromoteConstraint → DecideContext → Result (List ConstraintEvent)
  promote c m ctx = do
    reject_if (not (exists c)) Rejection.not_found
    reject_if (not (is_human ctx.actor)) Rejection.human_only
    reject_if (not (is_verified c.state)) Rejection.bad_state
    reject_if (not (ScopeKey.is_valid m.to_scope)) Rejection.invalid
    reject_if (not (contains m.to_scope c.scope) || key_eq m.to_scope c.scope) Rejection.not_wider
    reject_if (is_nil (c.origin ++ m.origin)) Rejection.no_origin
    reject_if (is_empty m.explanation) Rejection.no_explanation
    reject_if (is_autonomy c.kind && ltb_ℤ ctx.cap c.level) Rejection.over_cap
    ok (
        ConstraintEvent.constraint_promoted (record {
          id = c.id;
          from = c.scope;
          to = m.to_scope;
          origin = c.origin ++ m.origin;
          explanation = m.explanation;
          by = ctx.actor;
          at = ctx.now;
        })
        ∷ [])

  unfoldable pub demote :
      Constraint → DemoteConstraint → DecideContext → Result (List ConstraintEvent)
  demote c m ctx = do
    check_active c
    reject_if (not (ScopeKey.is_valid m.to_scope)) Rejection.invalid
    reject_if (not (contains c.scope m.to_scope) || key_eq m.to_scope c.scope)
        Rejection.not_narrower
    reject_if (is_empty m.reason) Rejection.no_reason
    ok (
        ConstraintEvent.constraint_demoted (record {
          id = c.id;
          from = c.scope;
          to = m.to_scope;
          reason = m.reason;
          by = ctx.actor;
          at = ctx.now;
        })
        ∷ [])

unfoldable pub verify : Constraint → DecideContext → Result (List ConstraintEvent)
verify c ctx = do
  reject_if (not (exists c)) Rejection.not_found
  reject_if (not (is_human ctx.actor)) Rejection.human_only
  reject_if (not (may_verify c.state)) Rejection.bad_state
  ok (ConstraintEvent.constraint_verified c.id ctx.actor ctx.now ∷ [])

unfoldable pub supersede : Constraint → Ident → DecideContext → Result (List ConstraintEvent)
supersede c by ctx = do
  check_active c
  reject_if (is_zero by || text_eq by c.id) Rejection.invalid
  ok (ConstraintEvent.constraint_superseded c.id by ctx.now ctx.actor ∷ [])

unfoldable pub retire : Constraint → Text → DecideContext → Result (List ConstraintEvent)
retire c reason ctx = do
  check_active c
  ok (ConstraintEvent.constraint_retired c.id reason ctx.actor ctx.now ∷ [])

-- `Decide`.
unfoldable pub decide :
    ⦃go : Std⦄ → Constraint → ConstraintCommand → DecideContext → Result (List ConstraintEvent)
decide c (ConstraintCommand.draft m) ctx = draft c m ctx
decide c (ConstraintCommand.verify cmd) ctx = verify c ctx
decide c (ConstraintCommand.promote m) ctx = promote c m ctx
decide c (ConstraintCommand.demote m) ctx = demote c m ctx
decide c (ConstraintCommand.supersede cmd by) ctx = supersede c by ctx
decide c (ConstraintCommand.retire cmd reason) ctx = retire c reason ctx
decide c (ConstraintCommand.rebind cmd anchors) ctx = rebind c anchors ctx
decide c (ConstraintCommand.other kind) ctx = err Rejection.unknown_command

-- `Apply`.
unfoldable pub apply : Constraint → ConstraintEvent → Constraint
apply c (ConstraintEvent.constraint_drafted v) = record no_constraint {
  id = v.id;
  kind = v.kind;
  scope = v.scope;
  body = v.body;
  checkable = v.checkable;
  origin = v.origin;
  authored = v.authored;
  explanation = v.explanation;
  level = v.level;
  supersedes = v.supersedes;
  anchors = v.anchors;
  state = ConstraintState.generated;
  updated_at = v.at;
}
apply c (ConstraintEvent.constraint_rebound id anchors by at) = record c {
  anchors = anchors;
  updated_at = at;
}
apply c (ConstraintEvent.constraint_verified id by at) = record c {
  state = ConstraintState.verified;
  updated_at = at;
}
apply c (ConstraintEvent.constraint_promoted v) = record c {
  scope = v.to;
  origin = v.origin;
  explanation = v.explanation;
  updated_at = v.at;
}
apply c (ConstraintEvent.constraint_demoted v) = record c { scope = v.to; updated_at = v.at }
apply c (ConstraintEvent.constraint_superseded id by at actor) = record c {
  state = ConstraintState.retired;
  superseded_by = by;
  updated_at = at;
}
apply c (ConstraintEvent.constraint_retired id reason by at) = record c {
  state = ConstraintState.retired;
  updated_at = at;
}
apply c (ConstraintEvent.other kind) = c
