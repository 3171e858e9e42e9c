-- ===== src/Harness/Constraint/Accepted.antt =====
-- internal/core/harness/constraint.go: what a command has passed when it is accepted.
use keelage.Prelude.{◌≡◌, true, false, not, ◌&&◌, List, [], ◌∷◌, ◌++◌, all, is_nil, arith}
use keelage.Prelude.Int.{leb_ℤ_iff, ◌≤ℤ◌}
use keelage.Prelude.Text.{Text, is_empty, text_eq}
use keelage.Core.Event.{ok}
use keelage.Core.Std.{Std}
use keelage.Core.Actor.{Ident, is_zero, is_human}
use keelage.Core.Level.{valid}
use keelage.Core.ScopeKey.{ScopeKey, key_eq, contains}
use keelage.Core.ScopeKey
use keelage.Core.Anchor.{is_anchor}
use keelage.Core.Context.{DecideContext}
use keelage.Harness.Constraint.State.{
  ConstraintState, Constraint, DraftConstraint, PromoteConstraint, DemoteConstraint,
  ConstraintEvent,
}
use keelage.Harness.Constraint.Decide.{
  valid_kind, is_autonomy, is_retired, may_verify, exists, draft, rebind, promote, demote, verify,
  supersede, retire,
}

-- A constraint that exists and is not retired.
pub record IsActive (c : Constraint) : Type 0 where
  pub exists : exists c ≡ true
  pub not_retired : is_retired c.state ≡ false

module _ ⦃go : Std⦄ where
  pub record Drafts (c : Constraint) (m : DraftConstraint) (ctx : DecideContext)
      (evs : List ConstraintEvent) : Type 0 where
    pub new : exists c ≡ false
    pub id : is_zero m.cmd.id ≡ false
    pub kind : valid_kind m.kind ≡ true
    pub scope : ScopeKey.is_valid m.scope ≡ true
    pub body : is_empty m.body ≡ false
    pub source : (not m.authored && is_nil m.origin) ≡ false
    pub anchors : all is_anchor m.anchors ≡ true
    pub level : is_autonomy m.kind ≡ true → (valid m.level ≡ true) × (m.level ≤ℤ ctx.cap)
    pub events :
        evs
        ≡ ConstraintEvent.constraint_drafted (record {
          id = m.cmd.id;
          kind = m.kind;
          scope = m.scope;
          body = m.body;
          checkable = m.checkable;
          origin = m.origin;
          authored = m.authored;
          explanation = m.explanation;
          level = m.level;
          supersedes = m.supersedes;
          anchors = m.anchors;
          at = ctx.now;
        })
          ∷ []

  pub draft-Drafts :
      (c : Constraint) (m : DraftConstraint) (ctx : DecideContext) {evs : List ConstraintEvent}
      → draft c m ctx ≡ ok evs
      → Drafts c m ctx evs
  unfolding draft
  draft-Drafts c m ctx h = record {
    new = ground arith;
    id = ground arith;
    kind = ground arith;
    scope = ground arith;
    body = ground arith;
    source = ground arith;
    anchors = ground arith;
    level = λ autonomy. (ground arith, ground (arith, leb_ℤ_iff m.level ctx.cap));
    events = ground arith;
  }

  pub record Rebinds (c : Constraint) (anchors : List Text) (ctx : DecideContext)
      (evs : List ConstraintEvent) : Type 0 where
    pub active : IsActive c
    pub valid_anchors : all is_anchor anchors ≡ true
    pub events : evs ≡ ConstraintEvent.constraint_rebound c.id anchors ctx.actor ctx.now ∷ []

  pub rebind-Rebinds :
      (c : Constraint) (anchors : List Text) (ctx : DecideContext) {evs : List ConstraintEvent}
      → rebind c anchors ctx ≡ ok evs
      → Rebinds c anchors ctx evs
  unfolding rebind
  rebind-Rebinds c anchors ctx h = record {
    active = record { exists = ground arith; not_retired = ground arith };
    valid_anchors = ground arith;
    events = ground arith;
  }

  pub record Promotes (c : Constraint) (m : PromoteConstraint) (ctx : DecideContext)
      (evs : List ConstraintEvent) : Type 0 where
    pub human : is_human ctx.actor ≡ true
    pub verified : c.state ≡ ConstraintState.verified
    pub scope : ScopeKey.is_valid m.to_scope ≡ true
    pub wider : contains m.to_scope c.scope ≡ true
    pub other_scope : key_eq m.to_scope c.scope ≡ false
    pub source : is_nil (c.origin ++ m.origin) ≡ false
    pub explanation : is_empty m.explanation ≡ false
    pub level : is_autonomy c.kind ≡ true → c.level ≤ℤ ctx.cap
    pub events :
        evs
        ≡ ConstraintEvent.constraint_promoted (record {
          id = c.id;
          from = c.scope;
          to = m.to_scope;
          origin = c.origin ++ m.origin;
          explanation = m.explanation;
          by = ctx.actor;
          at = ctx.now;
        })
          ∷ []

  pub promote-Promotes :
      (c : Constraint) (m : PromoteConstraint) (ctx : DecideContext) {evs : List ConstraintEvent}
      → promote c m ctx ≡ ok evs
      → Promotes c m ctx evs
  unfolding promote
  promote-Promotes c m ctx h = record {
    human = ground arith;
    verified = ground arith;
    scope = ground arith;
    wider = ground arith;
    other_scope = ground arith;
    source = ground arith;
    explanation = ground arith;
    level = λ autonomy. ground (arith, leb_ℤ_iff c.level ctx.cap);
    events = ground arith;
  }

  pub record Demotes (c : Constraint) (m : DemoteConstraint) (ctx : DecideContext)
      (evs : List ConstraintEvent) : Type 0 where
    pub active : IsActive c
    pub scope : ScopeKey.is_valid m.to_scope ≡ true
    pub narrower : contains c.scope m.to_scope ≡ true
    pub other_scope : key_eq m.to_scope c.scope ≡ false
    pub reason : is_empty m.reason ≡ false
    pub events :
        evs
        ≡ ConstraintEvent.constraint_demoted (record {
          id = c.id;
          from = c.scope;
          to = m.to_scope;
          reason = m.reason;
          by = ctx.actor;
          at = ctx.now;
        })
          ∷ []

  pub demote-Demotes :
      (c : Constraint) (m : DemoteConstraint) (ctx : DecideContext) {evs : List ConstraintEvent}
      → demote c m ctx ≡ ok evs
      → Demotes c m ctx evs
  unfolding demote
  demote-Demotes c m ctx h = record {
    active = record { exists = ground arith; not_retired = ground arith };
    scope = ground arith;
    narrower = ground arith;
    other_scope = ground arith;
    reason = ground arith;
    events = ground arith;
  }

pub record Verifies (c : Constraint) (ctx : DecideContext) (evs : List ConstraintEvent)
    : Type 0 where
  pub human : is_human ctx.actor ≡ true
  pub state : may_verify c.state ≡ true
  pub events : evs ≡ ConstraintEvent.constraint_verified c.id ctx.actor ctx.now ∷ []

pub verify-Verifies :
    (c : Constraint) (ctx : DecideContext) {evs : List ConstraintEvent}
    → verify c ctx ≡ ok evs
    → Verifies c ctx evs
unfolding verify
verify-Verifies c ctx h = record {
  human = ground arith;
  state = ground arith;
  events = ground arith;
}

pub record Supersedes (c : Constraint) (by : Ident) (ctx : DecideContext)
    (evs : List ConstraintEvent) : Type 0 where
  pub active : IsActive c
  pub successor : is_zero by ≡ false
  pub other_id : text_eq by c.id ≡ false
  pub events : evs ≡ ConstraintEvent.constraint_superseded c.id by ctx.now ctx.actor ∷ []

pub supersede-Supersedes :
    (c : Constraint) (by : Ident) (ctx : DecideContext) {evs : List ConstraintEvent}
    → supersede c by ctx ≡ ok evs
    → Supersedes c by ctx evs
unfolding supersede
supersede-Supersedes c by ctx h = record {
  active = record { exists = ground arith; not_retired = ground arith };
  successor = ground arith;
  other_id = ground arith;
  events = ground arith;
}

pub record Retires (c : Constraint) (reason : Text) (ctx : DecideContext)
    (evs : List ConstraintEvent) : Type 0 where
  pub active : IsActive c
  pub events : evs ≡ ConstraintEvent.constraint_retired c.id reason ctx.actor ctx.now ∷ []

pub retire-Retires :
    (c : Constraint) (reason : Text) (ctx : DecideContext) {evs : List ConstraintEvent}
    → retire c reason ctx ≡ ok evs
    → Retires c reason ctx evs
unfolding retire
retire-Retires c reason ctx h = record {
  active = record { exists = ground arith; not_retired = ground arith };
  events = ground arith;
}
