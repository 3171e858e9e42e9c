-- ===== src/Accountability/Change/Invariant.antt =====
-- internal/core/accountability/change.go: a change after any commands, in any contexts.
use keelage.Prelude.{
  ◌≡◌, ◌≢◌, refl, sym, ◌∙◌, Bool, true, false, inl, inr, none, List, [], ◌∷◌, ◌++◌, arith, any, Any,
  All, All-append, All-imp,
}
use keelage.Prelude.Int.{◌≤ℤ◌}
use keelage.Prelude.Text.{Text, text_eq, text_eq_iff}
use keelage.Core.Event.{ok, replay}
use keelage.Core.Aggregate.{after, after_elim, run}
use keelage.Core.Std.{Std}
use keelage.Core.Actor.{Ident}
use keelage.Core.Level.{l0, l2}
use keelage.Core.Context.{DecideContext}
use keelage.Accountability.Change.State.{
  ChangeState, Judgment, Change, no_change, ChangeCommand, ChangeEvent, impact_is_empty, OpenChange,
  Proposal, Outcome,
}
use keelage.Accountability.Change.Rules.{
  is_harness, is_autonomous, is_deployed, open_with, add_proposal, judge,
}
use keelage.Accountability.Change.Clearance.{needs_human}
use keelage.Accountability.Change.Accepted.{
  IsAdmissible, open-Opens, judge-Judges, deploy-Deploys, settle-Settles, record_outcome-Records,
  add_proposal-Adds,
}
use keelage.Accountability.Change.Cleared.{IsCleared}
use keelage.Accountability.Change.Decide.{deploy, record_outcome, settle, decide, apply}

-- Deployed or observed.
abbrev pub is_past_judgment : ChangeState → Bool
is_past_judgment ChangeState.deployed = true
is_past_judgment ChangeState.observed = true
is_past_judgment _ = false

-- Deployed, observed or settled.
abbrev pub is_live : ChangeState → Bool
is_live ChangeState.settled = true
is_live ChangeState.deployed = true
is_live ChangeState.observed = true
is_live _ = false

-- No two judgments have the same id.
abbrev pub Distinct : List Judgment → Type 0
Distinct [] = Unit
Distinct (j ∷ js) = All (λ k. k.id ≢ j.id) js × Distinct js

-- The commands that need the approval of the judgments.
abbrev pub proceeds : ChangeCommand → Bool
proceeds (ChangeCommand.deploy _ _) = true
proceeds (ChangeCommand.settle _ _) = true
proceeds _ = false

-- The judgments clear the change, those of the owners included, in a context of which `Q` holds.
abbrev pub ApprovedIn : (DecideContext → Type 0) → Change → Type 0
ApprovedIn Q c = (ctx : DecideContext) × Q ctx × IsCleared c ctx c.judgments

-- A command of the history that deploys or settles was sent in this context.
abbrev pub IsContextIn : List (ChangeCommand × DecideContext) → DecideContext → Type 0
IsContextIn history ctx = Any (λ x. (proceeds x.0 ≡ true) × (x.1 ≡ ctx)) history

contexts-All :
    (history : List (ChangeCommand × DecideContext))
    → All (λ x. proceeds x.0 ≡ true → IsContextIn history x.1) history
contexts-All [] = tt
contexts-All (x ∷ history) = (
  λ p. inl (p, refl),
  All-imp (λ y. proceeds y.0 ≡ true → IsContextIn history y.1)
      (λ y. proceeds y.0 ≡ true → IsContextIn (x ∷ history) y.1) history (λ y f p. inr (f p))
      (contexts-All history),
)

pub record IsSound (Q : DecideContext → Type 0) (c : Change) : Type 0 where
  pub harness : is_harness c.kind ≡ true → c.autonomy_applied ≡ l0
  pub autonomous : is_autonomous c.mode ≡ true → l2 ≤ℤ c.autonomy_applied
  pub admissible : All (IsAdmissible c.kind c.autonomy_applied c.impact) c.judgments
  pub distinct : Distinct c.judgments
  pub approved : is_live c.state ≡ true → impact_is_empty c.impact ≡ false → ApprovedIn Q c
  pub deployment : is_past_judgment c.state ≡ true → c.deployment ≢ none

-- It is about the kind, the autonomy and the judgments only.
ApprovedIn-keeps :
    {Q : DecideContext → Type 0} (c c' : Change)
    → needs_human c' ≡ needs_human c
    → c'.judgments ≡ c.judgments
    → ApprovedIn Q c
    → ApprovedIn Q c'
ApprovedIn-keeps c c' same js (ctx, q, k) = (
  ctx,
  q,
  rw js
      (record { latest = k.latest; human = λ need. k.human (sym same ∙ need); owners = k.owners }),
)

Distinct-concat :
    (js : List Judgment) (j : Judgment)
    → any (λ prev. text_eq prev.id j.id) js ≡ false
    → Distinct js
    → Distinct (js ++ j ∷ [])
Distinct-concat [] j h d = (tt, tt)
Distinct-concat (k ∷ js) j h (a, d) = (
  All-append (λ i. i.id ≢ k.id) js (j ∷ []) a (ground (arith, text_eq_iff k.id j.id), tt),
  Distinct-concat js j (ground arith) d,
)

module _ ⦃go : Std⦄ where
  open-IsSound :
      {Q : DecideContext → Type 0} (c : Change) (m : OpenChange) (ctx : DecideContext)
      (evs : List ChangeEvent)
      → open_with c m ctx ≡ ok evs
      → IsSound Q (replay apply c evs)
  unfolding replay apply
  open-IsSound c m ctx evs h =
      let o = open-Opens c m ctx h in
      rw o.event (record {
        harness = λ k. ground arith;
        autonomous = o.autonomous;
        admissible = tt;
        distinct = tt;
        approved = λ l. cc;
        deployment = λ l. cc;
      })

add_proposal-IsSound :
    {Q : DecideContext → Type 0} (c : Change) (p : Proposal) (evs : List ChangeEvent)
    → IsSound Q c
    → add_proposal c p ≡ ok evs
    → IsSound Q (replay apply c evs)
unfolding replay apply
add_proposal-IsSound c p evs s h = rw (add_proposal-Adds c p h).event (record {
  harness = s.harness;
  autonomous = s.autonomous;
  admissible = s.admissible;
  distinct = s.distinct;
  approved = λ l i. ApprovedIn-keeps c _ refl refl (s.approved l i);
  deployment = s.deployment;
})

judge-IsSound :
    {Q : DecideContext → Type 0} (c : Change) (j : Judgment) (evs : List ChangeEvent)
    → IsSound Q c
    → judge c j ≡ ok evs
    → IsSound Q (replay apply c evs)
unfolding replay apply
judge-IsSound c j evs s h =
    let k = judge-Judges c j h in
    rw k.event (record {
      harness = s.harness;
      autonomous = s.autonomous;
      admissible =
          All-append (IsAdmissible c.kind c.autonomy_applied c.impact) c.judgments (j ∷ [])
            s.admissible (k.admissible, tt);
      distinct = Distinct-concat c.judgments j k.fresh s.distinct;
      approved = λ l. cc;
      deployment = λ l. cc;
    })

deploy-IsSound :
    {Q : DecideContext → Type 0} (c : Change) (ref : Text) (ctx : DecideContext)
    (evs : List ChangeEvent)
    → Q ctx
    → IsSound Q c
    → deploy c ref ctx ≡ ok evs
    → IsSound Q (replay apply c evs)
unfolding replay apply
deploy-IsSound c ref ctx evs q s h =
    let k = deploy-Deploys c ref ctx h in
    rw k.event (record {
      harness = s.harness;
      autonomous = s.autonomous;
      admissible = s.admissible;
      distinct = s.distinct;
      approved = λ l i. ApprovedIn-keeps c _ refl refl (ctx, q, k.cleared i);
      deployment = λ l. cc;
    })

live_of_is_deployed :
    (s : ChangeState) → is_deployed s ≡ true → (is_live s ≡ true) × (is_past_judgment s ≡ true)
live_of_is_deployed s h = ground arith

record_outcome-IsSound :
    {Q : DecideContext → Type 0} (c : Change) (o : Outcome) (ctx : DecideContext)
    (evs : List ChangeEvent)
    → IsSound Q c
    → record_outcome c o ctx ≡ ok evs
    → IsSound Q (replay apply c evs)
unfolding replay apply
record_outcome-IsSound c o ctx evs s h =
    let k = record_outcome-Records c o ctx h in
    let (live, past) = live_of_is_deployed c.state k.state in
    rw k.event (record {
      harness = s.harness;
      autonomous = s.autonomous;
      admissible = s.admissible;
      distinct = s.distinct;
      approved = λ l i. ApprovedIn-keeps c _ refl refl (s.approved live i);
      deployment = λ l. s.deployment past;
    })

settle-IsSound :
    {Q : DecideContext → Type 0} (c : Change) (derived : List Ident) (ctx : DecideContext)
    (evs : List ChangeEvent)
    → Q ctx
    → IsSound Q c
    → settle c derived ctx ≡ ok evs
    → IsSound Q (replay apply c evs)
unfolding replay apply
settle-IsSound c derived ctx evs q s h =
    let k = settle-Settles c derived ctx h in
    rw k.event (record {
      harness = s.harness;
      autonomous = s.autonomous;
      admissible = s.admissible;
      distinct = s.distinct;
      approved = λ l i. ApprovedIn-keeps c _ refl refl (ctx, q, k.cleared i);
      deployment = λ l. cc;
    })

module _ ⦃go : Std⦄ where
  decide-IsSound :
      {Q : DecideContext → Type 0} (c : Change) (cmd : ChangeCommand) (ctx : DecideContext)
      (evs : List ChangeEvent)
      → (proceeds cmd ≡ true → Q ctx)
      → IsSound Q c
      → decide c cmd ctx ≡ ok evs
      → IsSound Q (replay apply c evs)
  unfolding decide
  decide-IsSound c (ChangeCommand.open_change m) ctx evs q s h = open-IsSound c m ctx evs h
  decide-IsSound c (ChangeCommand.add_proposal _ p) ctx evs q s h = add_proposal-IsSound c p evs s h
  decide-IsSound c (ChangeCommand.judge _ j) ctx evs q s h = judge-IsSound c j evs s h
  decide-IsSound c (ChangeCommand.deploy _ ref) ctx evs q s h =
      deploy-IsSound c ref ctx evs (q refl) s h
  decide-IsSound c (ChangeCommand.record_outcome _ o) ctx evs q s h =
      record_outcome-IsSound c o ctx evs s h
  decide-IsSound c (ChangeCommand.settle _ derived) ctx evs q s h =
      settle-IsSound c derived ctx evs (q refl) s h
  decide-IsSound c (ChangeCommand.other _) ctx evs q s h = cc

  run-IsSound :
      {Q : DecideContext → Type 0} (c : Change) (history : List (ChangeCommand × DecideContext))
      → All (λ x. proceeds x.0 ≡ true → Q x.1) history
      → IsSound Q c
      → IsSound Q (run decide apply c history)
  unfolding run
  run-IsSound c [] h s = s
  run-IsSound {Q} c ((cmd, ctx) ∷ history) (q, h) s =
      run-IsSound (after decide apply c cmd ctx) history h (
        after_elim decide apply (IsSound Q) c cmd ctx s
          (λ evs accepts. decide-IsSound c cmd ctx evs q s accepts))

  -- Whatever commands a change is sent, in whatever contexts, and whichever of them are refused:
  -- a harness change is at L0, an autonomous one at L2 or above; every judgment is by an
  -- accountable actor, carries a reason if the change has an impact, and is by an agent only if the
  -- change is no harness change and at L1 or above; no two judgments share an id; for a change with
  -- impact that is deployed, observed or settled, a command to deploy or to settle was sent in a
  -- context in which its judgments clear it: the latest accepts, one by a human accepts if it is a
  -- harness change or at L1 or below, and so does one by each owner that the context names; and a
  -- change that is deployed or observed has a deployment.
  pub run_change-IsSound :
      (history : List (ChangeCommand × DecideContext))
      → IsSound (IsContextIn history) (run decide apply no_change history)
  run_change-IsSound history = run-IsSound no_change history (contexts-All history) (record {
    harness = λ k. cc;
    autonomous = λ k. cc;
    admissible = tt;
    distinct = tt;
    approved = λ l. cc;
    deployment = λ l. cc;
  })
