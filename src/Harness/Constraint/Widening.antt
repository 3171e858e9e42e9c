-- ===== src/Harness/Constraint/Widening.antt =====
-- internal/core/harness/constraint.go: promotion to a wider scope and demotion to a narrower one.
use keelage.Prelude.{◌≡◌, refl, ◌∙◌, true, false, List, [], ◌∷◌, ◌++◌, is_nil}
use keelage.Prelude.Text.{is_empty, text_eq_comm}
use keelage.Core.Event.{ok, replay}
use keelage.Core.Std.{Std}
use keelage.Core.Actor.{is_human}
use keelage.Core.Context.{DecideContext}
use keelage.Core.ScopeKey.{ScopeKey, key_eq, contains}
use keelage.Core.ScopeKey
use keelage.Core.ScopeKey.Containment.{Covers, contains_iff}
use keelage.Harness.Constraint.State.{
  ConstraintState, Constraint, PromoteConstraint, DemoteConstraint, ConstraintEvent,
}
use keelage.Harness.Constraint.Decide.{apply, promote, demote}
use keelage.Harness.Constraint.Accepted.{promote-Promotes, IsActive}
use keelage.Harness.Constraint.Lifecycle.{IsWellFormed}

key_eq_comm : (a b : ScopeKey) → key_eq a b ≡ key_eq b a
unfolding key_eq
key_eq_comm a b =
    rw
      (
        text_eq_comm a.org b.org,
        text_eq_comm a.product b.product,
        text_eq_comm a.team b.team,
        text_eq_comm a.repo b.repo,
        text_eq_comm a.path_glob b.path_glob,
        text_eq_comm a.person b.person,
      )
      refl

module _ ⦃go : Std⦄ where
  -- The event of an accepted demotion.
  demoted : Constraint → DemoteConstraint → DecideContext → ConstraintEvent
  demoted c m ctx = ConstraintEvent.constraint_demoted (record {
    id = c.id;
    from = c.scope;
    to = m.to_scope;
    reason = m.reason;
    by = ctx.actor;
    at = ctx.now;
  })

  demote_ok :
      (c : Constraint) (m : DemoteConstraint) (ctx : DecideContext)
      → IsActive c
      → ScopeKey.is_valid m.to_scope ≡ true
      → contains c.scope m.to_scope ≡ true
      → key_eq m.to_scope c.scope ≡ false
      → is_empty m.reason ≡ false
      → demote c m ctx ≡ ok (demoted c m ctx ∷ [])
  unfolding demote demoted
  demote_ok c m ctx a v n o r = rw (a.exists, a.not_retired, v, n, o, r) refl

  -- An accepted promotion was sent by a human for a verified constraint. It moves the constraint to
  -- a scope that is another one and covers the one it had, leaves it verified, and adds its
  -- judgments to the origin, which is not empty.
  pub promote-Covers :
      (c : Constraint) (m : PromoteConstraint) (ctx : DecideContext) (evs : List ConstraintEvent)
      → promote c m ctx ≡ ok evs
      → (is_human ctx.actor ≡ true)
        × (((replay apply c evs).state ≡ ConstraintState.verified)
            × (Covers (replay apply c evs).scope c.scope
                × ((key_eq (replay apply c evs).scope c.scope ≡ false)
                    × (((replay apply c evs).origin ≡ c.origin ++ m.origin)
                        × (is_nil (replay apply c evs).origin ≡ false)))))
  unfolding replay apply
  promote-Covers c m ctx evs h =
      let k = promote-Promotes c m ctx h in
      rw k.events (
        k.human,
        (
          k.verified,
          ((contains_iff m.to_scope c.scope).0 k.wider, (k.other_scope, (refl, k.source))),
        ),
      )

  -- A promotion can be taken back: after it, a demotion with a reason to the scope that the
  -- constraint had is accepted, and leads to that scope with the state and the origin as they were
  -- after the promotion.
  pub promote-demote :
      (c : Constraint) (m : PromoteConstraint) (ctx : DecideContext) (evs : List ConstraintEvent)
      → (d : DemoteConstraint) (later : DecideContext) → IsWellFormed c
      → promote c m ctx ≡ ok evs
      → d.to_scope ≡ c.scope
      → is_empty d.reason ≡ false
      → (back : List ConstraintEvent) × ((demote (replay apply c evs) d later ≡ ok back)
          × (((replay apply (replay apply c evs) back).scope ≡ c.scope)
              × (((replay apply (replay apply c evs) back).state ≡ ConstraintState.verified)
                  × ((replay apply (replay apply c evs) back).origin ≡ c.origin ++ m.origin))))
  unfolding replay apply demoted
  promote-demote c m ctx evs d later w h to reason =
      let k = promote-Promotes c m ctx h in
      let at = record c {
        scope = m.to_scope;
        origin = c.origin ++ m.origin;
        explanation = m.explanation;
        updated_at = ctx.now;
      } in
      rw k.events (
        demoted at d later ∷ [],
        (
          demote_ok at d later
              (record { exists = rw k.verified refl; not_retired = rw k.verified refl })
              (rw to w.scope) (rw to k.wider)
              (rw to (key_eq_comm c.scope m.to_scope ∙ k.other_scope)) reason,
          (to, (k.verified, refl)),
        ),
      )
