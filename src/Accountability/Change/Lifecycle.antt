-- ===== src/Accountability/Change/Lifecycle.antt =====
-- internal/core/accountability/change.go: a change and the same change later.
use mathlib.Core.List.{append-nil, append_assoc}
use keelage.Prelude.{◌≡◌, refl, sym, ◌∙◌, ap, Bool, true, false, List, [], ◌∷◌, ◌++◌, arith}
use keelage.Core.Event.{ok, replay}
use keelage.Core.Aggregate.{after_elim, run, run_induction}
use keelage.Core.Std.{Std}
use keelage.Core.Context.{DecideContext}
use keelage.Accountability.Change.State.{Judgment, Proposal, Change, ChangeCommand, ChangeEvent}
use keelage.Accountability.Change.Rules.{exists}
use keelage.Accountability.Change.Accepted.{
  open-Opens, judge-Judges, deploy-Deploys, settle-Settles, record_outcome-Records,
  add_proposal-Adds,
}
use keelage.Accountability.Change.Decide.{decide, apply}

-- `c'` is `c` later: the same change, with more proposals and judgments behind those it had.
pub record Continues (c c' : Change) : Type 0 where
  pub id : c'.id ≡ c.id
  pub kind : c'.kind ≡ c.kind
  pub mode : c'.mode ≡ c.mode
  pub intent_ref : c'.intent_ref ≡ c.intent_ref
  pub impact : c'.impact ≡ c.impact
  pub autonomy_applied : c'.autonomy_applied ≡ c.autonomy_applied
  pub opened_at : c'.opened_at ≡ c.opened_at
  pub exists : exists c' ≡ true
  pub proposals : (ps : List Proposal) × (c'.proposals ≡ c.proposals ++ ps)
  pub judgments : (js : List Judgment) × (c'.judgments ≡ c.judgments ++ js)

Continues-refl : (c : Change) → exists c ≡ true → Continues c c
Continues-refl c h = record {
  id = refl;
  kind = refl;
  mode = refl;
  intent_ref = refl;
  impact = refl;
  autonomy_applied = refl;
  opened_at = refl;
  exists = h;
  proposals = ([], sym (append-nil c.proposals));
  judgments = ([], sym (append-nil c.judgments));
}

grows {ℓ} : {A : Type ℓ} (a b c xs ys : List A) → b ≡ a ++ xs → c ≡ b ++ ys → c ≡ a ++ (xs ++ ys)
grows a b c xs ys p q = q ∙ ap (λ l. l ++ ys) p ∙ append_assoc a xs ys

Continues-trans : (a b c : Change) → Continues a b → Continues b c → Continues a c
Continues-trans a b c p q = record {
  id = q.id ∙ p.id;
  kind = q.kind ∙ p.kind;
  mode = q.mode ∙ p.mode;
  intent_ref = q.intent_ref ∙ p.intent_ref;
  impact = q.impact ∙ p.impact;
  autonomy_applied = q.autonomy_applied ∙ p.autonomy_applied;
  opened_at = q.opened_at ∙ p.opened_at;
  exists = q.exists;
  proposals = (
    p.proposals.0 ++ q.proposals.0,
    grows a.proposals b.proposals c.proposals _ _ p.proposals.1 q.proposals.1,
  );
  judgments = (
    p.judgments.0 ++ q.judgments.0,
    grows a.judgments b.judgments c.judgments _ _ p.judgments.1 q.judgments.1,
  );
}

-- One event of an existing change, other than its opening.
abbrev is_opening : ChangeEvent → Bool
is_opening (ChangeEvent.change_opened _) = true
is_opening _ = false

Continues-apply :
    (c : Change) (e : ChangeEvent)
    → exists c ≡ true
    → is_opening e ≡ false
    → Continues c (apply c e)
unfolding apply
Continues-apply c (ChangeEvent.change_opened v) h n = cc
Continues-apply c (ChangeEvent.proposal_added id p) h n =
    let r = Continues-refl c h in
    record {
      id = refl;
      kind = refl;
      mode = refl;
      intent_ref = refl;
      impact = refl;
      autonomy_applied = refl;
      opened_at = refl;
      exists = h;
      proposals = (p ∷ [], refl);
      judgments = r.judgments;
    }
Continues-apply c (ChangeEvent.judged id j) h n =
    let r = Continues-refl c h in
    record {
      id = refl;
      kind = refl;
      mode = refl;
      intent_ref = refl;
      impact = refl;
      autonomy_applied = refl;
      opened_at = refl;
      exists = refl;
      proposals = r.proposals;
      judgments = (j ∷ [], refl);
    }
Continues-apply c (ChangeEvent.other kind) h n = Continues-refl c h
Continues-apply c e h n =
    let r = Continues-refl c h in
    record {
      id = refl;
      kind = refl;
      mode = refl;
      intent_ref = refl;
      impact = refl;
      autonomy_applied = refl;
      opened_at = refl;
      exists = refl;
      proposals = r.proposals;
      judgments = r.judgments;
    }

-- an accepted command of an existing change is one event, and no opening
module _ ⦃go : Std⦄ where
  event_of :
      (c : Change) (cmd : ChangeCommand) (ctx : DecideContext) (evs : List ChangeEvent)
      → exists c ≡ true
      → decide c cmd ctx ≡ ok evs
      → (e : ChangeEvent) × (evs ≡ e ∷ []) × (is_opening e ≡ false)
  unfolding decide
  event_of c (ChangeCommand.open_change m) ctx evs x h =
      absurd (ground (arith, (open-Opens c m ctx h).absent))
  event_of c (ChangeCommand.add_proposal _ p) ctx evs x h =
      (_, (add_proposal-Adds c p h).event, refl)
  event_of c (ChangeCommand.judge _ j) ctx evs x h = (_, (judge-Judges c j h).event, refl)
  event_of c (ChangeCommand.deploy _ ref) ctx evs x h =
      (_, (deploy-Deploys c ref ctx h).event, refl)
  event_of c (ChangeCommand.record_outcome _ o) ctx evs x h =
      (_, (record_outcome-Records c o ctx h).event, refl)
  event_of c (ChangeCommand.settle _ derived) ctx evs x h =
      (_, (settle-Settles c derived ctx h).event, refl)
  event_of c (ChangeCommand.other _) ctx evs x h = absurd (ground arith)

  Continues-decide :
      (c : Change) (cmd : ChangeCommand) (ctx : DecideContext) (evs : List ChangeEvent)
      → exists c ≡ true
      → decide c cmd ctx ≡ ok evs
      → Continues c (replay apply c evs)
  unfolding replay
  Continues-decide c cmd ctx evs x h =
      let (e, one, later) = event_of c cmd ctx evs x h in rw one (Continues-apply c e x later)

  -- Whatever commands an existing change is sent, its identity, kind, mode, intent, impact, level
  -- and opening time stay as they were, and its proposals and judgments are those that it had with
  -- others behind them: nothing is rewritten or dropped.
  pub run_change-Continues :
      (c : Change) (history : List (ChangeCommand × DecideContext))
      → exists c ≡ true
      → Continues c (run decide apply c history)
  run_change-Continues c history x =
      run_induction decide apply (Continues c)
        (λ s cmd ctx k. after_elim decide apply (Continues c) s cmd ctx k (λ evs h.
          Continues-trans c s (replay apply s evs) k (Continues-decide s cmd ctx evs k.exists h)))
        c history (Continues-refl c x)
