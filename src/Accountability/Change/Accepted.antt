-- ===== src/Accountability/Change/Accepted.antt =====
-- internal/core/accountability/change.go: what each command has passed when it is accepted.
use keelage.Prelude.{◌≡◌, refl, true, false, List, [], ◌∷◌, arith, any, if◌then◌else◌}
use keelage.Prelude.Int.{leb_ℤ_iff, ◌≤ℤ◌}
use keelage.Prelude.Text.{Text, text_eq, is_empty}
use keelage.Core.Event.{ok}
use keelage.Core.Std.{Std}
use keelage.Core.Actor.{is_agent, is_human, IsAccountable, validate-IsAccountable, Ident}
use keelage.Core.Actor
use keelage.Core.Level.{Level, l1, l2}
use keelage.Core.Context.{DecideContext, time_is_zero}
use keelage.Accountability.Change.State.{
  ChangeKind, ChangeState, Judgment, Change, ChangeEvent, impact_is_empty, OpenChange, Proposal,
  Outcome, Impact,
}
use keelage.Accountability.Change.Rules.{
  is_absent, is_harness, is_autonomous, is_judgeable, is_settled, is_deployed, opening, open_with,
  add_proposal, judge,
}
use keelage.Accountability.Change.Clearance.{judgments_allow}
use keelage.Accountability.Change.Cleared.{IsCleared, judgments_allow_iff}
use keelage.Accountability.Change.Decide.{
  may_deploy, deploy, record_outcome, may_settle, settle_free, settle_impact, settle,
}

-- A judgment as `judge` admits it: by a known actor, an agent only where agents judge, and with a
-- reason where the change has an impact.
pub record IsAdmissible (kind : ChangeKind) (level : Level) (impact : Impact) (j : Judgment)
    : Type 0 where
  pub actor : IsAccountable j.by
  pub agent : is_agent j.by ≡ true → (is_harness kind ≡ false) × (l1 ≤ℤ level)
  pub reason : impact_is_empty impact ≡ false → is_empty j.reason ≡ false

-- What the accepted commands have passed, and the event that each of them is.
pub record Opens (c : Change) (m : OpenChange) (ctx : DecideContext) (evs : List ChangeEvent)
    : Type 0 where
  pub event : evs ≡ ChangeEvent.change_opened (opening m ctx) ∷ []
  pub absent : is_absent c.state ≡ true
  pub autonomous : is_autonomous m.mode ≡ true → l2 ≤ℤ (opening m ctx).autonomy_applied

pub open-Opens :
    ⦃go : Std⦄
    → (c : Change) (m : OpenChange) (ctx : DecideContext) {evs : List ChangeEvent}
    → open_with c m ctx ≡ ok evs
    → Opens c m ctx evs
unfolding open_with
open-Opens c m ctx h = record {
  event = ground arith;
  absent = ground arith;
  autonomous = λ a. ground (arith, leb_ℤ_iff l2 (opening m ctx).autonomy_applied);
}

pub record Judges (c : Change) (j : Judgment) (evs : List ChangeEvent) : Type 0 where
  pub event : evs ≡ ChangeEvent.judged c.id j ∷ []
  pub admissible : IsAdmissible c.kind c.autonomy_applied c.impact j
  pub fresh : any (λ prev. text_eq prev.id j.id) c.judgments ≡ false
  pub state : is_judgeable c.state ≡ true

check_of_judge :
    (c : Change) (j : Judgment) {evs : List ChangeEvent}
    → judge c j ≡ ok evs
    → Actor.validate j.by ≡ ok tt
unfolding judge
check_of_judge c j h = ground arith

pub judge-Judges :
    (c : Change) (j : Judgment) {evs : List ChangeEvent} → judge c j ≡ ok evs → Judges c j evs
unfolding judge
judge-Judges c j h = record {
  event = ground arith;
  admissible = record {
    actor = validate-IsAccountable j.by (check_of_judge c j h);
    agent = λ a. ground (arith, leb_ℤ_iff l1 c.autonomy_applied);
    reason = λ i. ground arith;
  };
  fresh = ground arith;
  state = ground arith;
}

pub record Deploys (c : Change) (ref : Text) (ctx : DecideContext) (evs : List ChangeEvent)
    : Type 0 where
  pub event : evs ≡ ChangeEvent.deployed c.id (record { ref = ref; at = ctx.now }) ∷ []
  pub cleared : impact_is_empty c.impact ≡ false → IsCleared c ctx c.judgments
  pub state : is_judgeable c.state ≡ true

clear_of_may_deploy :
    (s : ChangeState) (c : Change) (ctx : DecideContext)
    → may_deploy s c ctx ≡ ok tt
    → (is_judgeable s ≡ true) × (impact_is_empty c.impact ≡ false → judgments_allow c ctx ≡ ok tt)
unfolding may_deploy
clear_of_may_deploy ChangeState.judged c ctx h = (refl, λ i. h)
clear_of_may_deploy ChangeState.proposed c ctx h = (refl, λ i. absurd (ground arith))
clear_of_may_deploy _ c ctx h = absurd (ground arith)

may_deploy_of_deploy :
    (c : Change) (ref : Text) (ctx : DecideContext) {evs : List ChangeEvent}
    → deploy c ref ctx ≡ ok evs
    → (may_deploy c.state c ctx ≡ ok tt)
      × (evs ≡ ChangeEvent.deployed c.id (record { ref = ref; at = ctx.now }) ∷ [])
unfolding deploy
may_deploy_of_deploy c ref ctx h = ground arith

pub deploy-Deploys :
    (c : Change) (ref : Text) (ctx : DecideContext) {evs : List ChangeEvent}
    → deploy c ref ctx ≡ ok evs
    → Deploys c ref ctx evs
deploy-Deploys c ref ctx h =
    let (may, event) = may_deploy_of_deploy c ref ctx h in
    let (state, clear) = clear_of_may_deploy c.state c ctx may in
    record { event = event; cleared = λ i. (judgments_allow_iff c ctx).0 (clear i); state = state }

-- What an accepted `settle` records as derived.
abbrev pub derived_of : Change → List Ident → List Ident
derived_of c derived = if impact_is_empty c.impact then [] else derived

pub record Settles (c : Change) (derived : List Ident) (ctx : DecideContext)
    (evs : List ChangeEvent) : Type 0 where
  pub event : evs ≡ ChangeEvent.settled c.id (derived_of c derived) ctx.now ∷ []
  pub cleared : impact_is_empty c.impact ≡ false → IsCleared c ctx c.judgments
  pub waited : impact_is_empty c.impact ≡ false → may_settle c.state c ctx ≡ ok tt
  pub actor :
      impact_is_empty c.impact ≡ false → is_agent ctx.actor ≡ true → l2 ≤ℤ c.autonomy_applied
  pub exists : is_absent c.state ≡ false
  pub unsettled : is_settled c.state ≡ false

allow_of_settle :
    (c : Change) (derived : List Ident) (ctx : DecideContext) {evs : List ChangeEvent}
    → settle c derived ctx ≡ ok evs
    → impact_is_empty c.impact ≡ false
    → judgments_allow c ctx ≡ ok tt
unfolding settle settle_impact
allow_of_settle c derived ctx h i = ground arith

pub settle-Settles :
    (c : Change) (derived : List Ident) (ctx : DecideContext) {evs : List ChangeEvent}
    → settle c derived ctx ≡ ok evs
    → Settles c derived ctx evs
unfolding settle settle_impact settle_free
settle-Settles c derived ctx h = record {
  event = ground arith;
  cleared = λ i. (judgments_allow_iff c ctx).0 (allow_of_settle c derived ctx h i);
  waited = λ i. ground arith;
  actor = λ i a. ground (arith, leb_ℤ_iff l2 c.autonomy_applied);
  exists = ground arith;
  unsettled = ground arith;
}

pub record Records (c : Change) (o : Outcome) (ctx : DecideContext) (evs : List ChangeEvent)
    : Type 0 where
  pub recorded : Outcome
  pub event : evs ≡ ChangeEvent.outcome_recorded c.id recorded ∷ []
  pub state : is_deployed c.state ≡ true

pub record_outcome-Records :
    (c : Change) (o : Outcome) (ctx : DecideContext) {evs : List ChangeEvent}
    → record_outcome c o ctx ≡ ok evs
    → Records c o ctx evs
unfolding record_outcome
record_outcome-Records c o ctx h = record {
  recorded = record o { at = if time_is_zero o.at then ctx.now else o.at };
  event = ground arith;
  state = ground arith;
}

pub record Adds (c : Change) (p : Proposal) (evs : List ChangeEvent) : Type 0 where
  pub event : evs ≡ ChangeEvent.proposal_added c.id p ∷ []
  pub state : is_judgeable c.state ≡ true

pub add_proposal-Adds :
    (c : Change) (p : Proposal) {evs : List ChangeEvent} → add_proposal c p ≡ ok evs → Adds c p evs
unfolding add_proposal
add_proposal-Adds c p h = record { event = ground arith; state = ground arith }
