-- ===== src/App/Projection/Constraints/Agreement.antt =====
-- internal/app/projection.go and internal/core/harness/constraint.go: the index of constraints beside
-- the aggregates.
use keelage.Prelude.{
  ◌≡◌, refl, ◌∙◌, true, false, inl, inr, Bool-cases, List, [], ◌∷◌, if◌then◌else◌,
}
use keelage.Prelude.Dict.{find, put, find-put}
use keelage.Prelude.Text.{text_eq, text_eq_iff}
use keelage.Core.Actor.{Ident}
use keelage.Core.Event.{replay}
use keelage.Harness.Constraint.State.{Constraint, no_constraint, ConstraintEvent}
use keelage.Harness.Constraint.Decide.{apply}
use keelage.Ledger.Log.{filter}
use keelage.App.Projection.Constraints.{
  ConstraintSummary, ConstraintIndex, current, handle_constraint, is_about, summary_of,
}

current-put :
    (d : ConstraintIndex) (j id : Ident) (e : ConstraintSummary)
    → current (put j e d) id ≡ (if text_eq j id then e else current d id)
unfolding current
current-put d j id e =
    rw (current, find-put id j e d)
      (elim (Bool-cases (text_eq j id)) [ inl h ↦ rw h refl | inr h ↦ rw h refl ])

-- An event of the constraint is shown as the aggregate applies it.
step_own :
    (d : ConstraintIndex) (id : Ident) (c : Constraint) (ev : ConstraintEvent)
    → is_about id ev ≡ true
    → current d id ≡ summary_of c
    → current (handle_constraint d ev) id ≡ summary_of (apply c ev)
unfolding handle_constraint apply summary_of
step_own d id c (ConstraintEvent.constraint_drafted v) h e = current-put d v.id id _ ∙ rw h refl
step_own d id c (ConstraintEvent.constraint_rebound i anchors by at) h e =
    let same : i ≡ id = (text_eq_iff i id).0 h in
    current-put d i id (record (current d i) { anchors = anchors }) ∙ rw (h, same, e) refl
step_own d id c (ConstraintEvent.constraint_verified i by at) h e =
    let same : i ≡ id = (text_eq_iff i id).0 h in current-put d i id _ ∙ rw (h, same, e) refl
step_own d id c (ConstraintEvent.constraint_promoted v) h e =
    let same : v.id ≡ id = (text_eq_iff v.id id).0 h in
    current-put d v.id id _ ∙ rw (h, same, e) refl
step_own d id c (ConstraintEvent.constraint_demoted v) h e =
    let same : v.id ≡ id = (text_eq_iff v.id id).0 h in
    current-put d v.id id _ ∙ rw (h, same, e) refl
step_own d id c (ConstraintEvent.constraint_superseded i by at actor) h e =
    let same : i ≡ id = (text_eq_iff i id).0 h in current-put d i id _ ∙ rw (h, same, e) refl
step_own d id c (ConstraintEvent.constraint_retired i reason by at) h e =
    let same : i ≡ id = (text_eq_iff i id).0 h in current-put d i id _ ∙ rw (h, same, e) refl
step_own d id c (ConstraintEvent.other kind) h e = e

-- One of another constraint is not shown.
step_other :
    (d : ConstraintIndex) (id : Ident) (ev : ConstraintEvent)
    → is_about id ev ≡ false
    → current (handle_constraint d ev) id ≡ current d id
unfolding handle_constraint
step_other d id (ConstraintEvent.constraint_drafted v) h = current-put d v.id id _ ∙ rw h refl
step_other d id (ConstraintEvent.constraint_rebound i anchors by at) h =
    current-put d i id _ ∙ rw h refl
step_other d id (ConstraintEvent.constraint_verified i by at) h = current-put d i id _ ∙ rw h refl
step_other d id (ConstraintEvent.constraint_promoted v) h = current-put d v.id id _ ∙ rw h refl
step_other d id (ConstraintEvent.constraint_demoted v) h = current-put d v.id id _ ∙ rw h refl
step_other d id (ConstraintEvent.constraint_superseded i by at actor) h =
    current-put d i id _ ∙ rw h refl
step_other d id (ConstraintEvent.constraint_retired i reason by at) h =
    current-put d i id _ ∙ rw h refl
step_other d id (ConstraintEvent.other kind) h = refl

replay_current :
    (d : ConstraintIndex) (id : Ident) (c : Constraint) (evs : List ConstraintEvent)
    → current d id ≡ summary_of c
    → current (replay handle_constraint d evs) id
      ≡ summary_of (replay apply c (filter (is_about id) evs))
unfolding replay filter
replay_current d id c [] e = e
replay_current d id c (ev ∷ evs) e = elim (Bool-cases (is_about id ev)) [
  | inl h ↦
      rw h (replay_current (handle_constraint d ev) id (apply c ev) evs (step_own d id c ev h e))
  | inr h ↦ rw h (replay_current (handle_constraint d ev) id c evs (step_other d id ev h ∙ e))
]

-- After the events of all constraints, in any interleaving, the index has for every id what it keeps
-- of the aggregate that the constraint's own events lead to.
pub handle_constraint_agrees :
    (id : Ident) (evs : List ConstraintEvent)
    → current (replay handle_constraint [] evs) id
      ≡ summary_of (replay apply no_constraint (filter (is_about id) evs))
unfolding current find summary_of
handle_constraint_agrees id evs = replay_current [] id no_constraint evs refl
