-- ===== src/Harness/Constraint/Lineage.antt =====
-- internal/core/harness/constraint.go: a constraint and the same constraint later.
use mathlib.Core.List.{append-nil, append_assoc}
use keelage.Prelude.{◌≡◌, refl, sym, ap, ◌∙◌, true, List, [], ◌∷◌, ◌++◌, arith}
use keelage.Core.Event.{ok, replay}
use keelage.Core.Aggregate.{after, after_elim, run, run_induction}
use keelage.Core.Std.{Std}
use keelage.Core.Actor.{Ident}
use keelage.Core.Context.{DecideContext}
use keelage.Harness.Constraint.State.{Constraint, ConstraintCommand, ConstraintEvent}
use keelage.Harness.Constraint.Decide.{
  is_retired, exists, decide, apply, draft, verify, promote, demote, supersede, retire, rebind,
}
use keelage.Harness.Constraint.Accepted.{
  rebind-Rebinds, promote-Promotes, demote-Demotes, verify-Verifies, supersede-Supersedes,
  retire-Retires,
}

-- `c'` is `c` later: the same rule, with more judgments behind those that it came from.
pub record Continues (c c' : Constraint) : Type 0 where
  pub id : c'.id ≡ c.id
  pub kind : c'.kind ≡ c.kind
  pub body : c'.body ≡ c.body
  pub checkable : c'.checkable ≡ c.checkable
  pub authored : c'.authored ≡ c.authored
  pub level : c'.level ≡ c.level
  pub supersedes : c'.supersedes ≡ c.supersedes
  pub exists : exists c' ≡ true
  pub origin : (more : List Ident) × (c'.origin ≡ c.origin ++ more)

Continues-refl : (c : Constraint) → exists c ≡ true → Continues c c
Continues-refl c h = record {
  id = refl;
  kind = refl;
  body = refl;
  checkable = refl;
  authored = refl;
  level = refl;
  supersedes = refl;
  exists = h;
  origin = ([], sym (append-nil c.origin));
}

Continues-trans : (a b c : Constraint) → Continues a b → Continues b c → Continues a c
Continues-trans a b c p q = record {
  id = q.id ∙ p.id;
  kind = q.kind ∙ p.kind;
  body = q.body ∙ p.body;
  checkable = q.checkable ∙ p.checkable;
  authored = q.authored ∙ p.authored;
  level = q.level ∙ p.level;
  supersedes = q.supersedes ∙ p.supersedes;
  exists = q.exists;
  origin = (
    p.origin.0 ++ q.origin.0,
    q.origin.1 ∙ ap (λ l. l ++ q.origin.0) p.origin.1 ∙ append_assoc a.origin p.origin.0 q.origin.0,
  );
}

-- The parts that no event but `ConstraintDrafted` sets are those of `c`.
kept :
    (c c' : Constraint) (more : List Ident)
    → (record c' {
      scope = c.scope;
      origin = c.origin;
      explanation = c.explanation;
      anchors = c.anchors;
      state = c.state;
      superseded_by = c.superseded_by;
      updated_at = c.updated_at;
    })
      ≡ c
    → exists c' ≡ true
    → c'.origin ≡ c.origin ++ more
    → Continues c c'
kept c c' more same e o = record {
  id = ap (λ x. x.id) same;
  kind = ap (λ x. x.kind) same;
  body = ap (λ x. x.body) same;
  checkable = ap (λ x. x.checkable) same;
  authored = ap (λ x. x.authored) same;
  level = ap (λ x. x.level) same;
  supersedes = ap (λ x. x.supersedes) same;
  exists = e;
  origin = (more, o);
}

module _ ⦃go : Std⦄ where
  decide-Continues :
      (c : Constraint) (cmd : ConstraintCommand) (ctx : DecideContext) (evs : List ConstraintEvent)
      → exists c ≡ true
      → decide c cmd ctx ≡ ok evs
      → Continues c (replay apply c evs)
  unfolding decide replay apply draft
  decide-Continues c (ConstraintCommand.draft m) ctx evs e h = ground arith
  decide-Continues c (ConstraintCommand.verify cmd) ctx evs e h =
      rw (verify-Verifies c ctx h).events (kept c _ [] refl refl (sym (append-nil c.origin)))
  decide-Continues c (ConstraintCommand.promote m) ctx evs e h =
      rw (promote-Promotes c m ctx h).events (kept c _ m.origin refl e refl)
  decide-Continues c (ConstraintCommand.demote m) ctx evs e h =
      rw (demote-Demotes c m ctx h).events (kept c _ [] refl e (sym (append-nil c.origin)))
  decide-Continues c (ConstraintCommand.supersede cmd by) ctx evs e h =
      rw (supersede-Supersedes c by ctx h).events
        (kept c _ [] refl refl (sym (append-nil c.origin)))
  decide-Continues c (ConstraintCommand.retire cmd reason) ctx evs e h =
      rw (retire-Retires c reason ctx h).events (kept c _ [] refl refl (sym (append-nil c.origin)))
  decide-Continues c (ConstraintCommand.rebind cmd anchors) ctx evs e h =
      rw (rebind-Rebinds c anchors ctx h).events (kept c _ [] refl e (sym (append-nil c.origin)))
  decide-Continues c (ConstraintCommand.other kind) ctx evs e h = ground arith

  -- Commands sent to a constraint that exists leave its id, kind, body, check, authorship, level
  -- and predecessor as they are, and its origin only gains judgments at the end.
  pub run_constraint-Continues :
      (c : Constraint) (history : List (ConstraintCommand × DecideContext))
      → exists c ≡ true
      → Continues c (run decide apply c history)
  run_constraint-Continues c history e =
      run_induction decide apply (Continues c)
        (λ d cmd ctx p. after_elim decide apply (Continues c) d cmd ctx p (λ evs h.
          Continues-trans c d (replay apply d evs) p (decide-Continues d cmd ctx evs p.exists h)))
        c history (Continues-refl c e)

  after_retired :
      (c : Constraint) (cmd : ConstraintCommand) (ctx : DecideContext)
      → is_retired c.state ≡ true
      → after decide apply c cmd ctx ≡ c
  unfolding after decide draft verify promote demote supersede retire rebind replay
  after_retired c (ConstraintCommand.draft m) ctx h = ground arith
  after_retired c (ConstraintCommand.verify cmd) ctx h = ground arith
  after_retired c (ConstraintCommand.promote m) ctx h = ground arith
  after_retired c (ConstraintCommand.demote m) ctx h = ground arith
  after_retired c (ConstraintCommand.supersede cmd by) ctx h = ground arith
  after_retired c (ConstraintCommand.retire cmd reason) ctx h = ground arith
  after_retired c (ConstraintCommand.rebind cmd anchors) ctx h = ground arith
  after_retired c (ConstraintCommand.other kind) ctx h = refl

  -- A retired constraint is final: no sequence of commands changes it.
  pub run_retired :
      (c : Constraint) (history : List (ConstraintCommand × DecideContext))
      → is_retired c.state ≡ true
      → run decide apply c history ≡ c
  unfolding run
  run_retired c [] h = refl
  run_retired c ((cmd, ctx) ∷ history) h = rw (after_retired c cmd ctx h) (run_retired c history h)
