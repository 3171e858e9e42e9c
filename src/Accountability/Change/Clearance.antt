-- ===== src/Accountability/Change/Clearance.antt =====
-- internal/core/accountability/change.go: `judgmentsAllow`.
use keelage.Prelude.{Bool, true, false, not, ◌&&◌, ◌||◌, List, [], ◌∷◌, all, if◌then◌else◌}
use keelage.Prelude.Int.{leb_ℤ}
use keelage.Prelude.Text.{contains_text}
use keelage.Core.Event.{Rejection, Result, err, reject_if, ◌>>◌}
use keelage.Core.Actor.{Ident, is_human}
use keelage.Core.Level.{l1}
use keelage.Core.Context.{DecideContext}
use keelage.Accountability.Change.State.{Judgment, Change}
use keelage.Accountability.Change.Rules.{is_harness, is_reject}

-- The variables of the loop of `judgmentsAllow`; `judged` is the map's key set.
pub record Tally : Type 0 where
  pub human_ok : Bool
  pub any_ok : Bool
  pub judged : List Ident

abbrev pub no_tally : Tally
no_tally = record { human_ok = false; any_ok = false; judged = [] }

unfoldable pub count_judgment : Tally → Judgment → Tally
count_judgment t j = if is_reject j.decision then t else record {
  human_ok = if is_human j.by then true else t.human_ok;
  any_ok = true;
  judged = j.by.id ∷ t.judged;
}

unfoldable pub tally : Tally → List Judgment → Tally
tally t [] = t
tally t (j ∷ js) = tally (count_judgment t j) js

-- `c.Judgments[len(c.Judgments)-1]` of a list that is not empty.
abbrev pub last_of : Judgment → List Judgment → Judgment
last_of j [] = j
last_of j (k ∷ js) = last_of k js

abbrev pub needs_human : Change → Bool
needs_human c = is_harness c.kind || leb_ℤ c.autonomy_applied l1

-- `judgmentsAllow`, by whether there is a judgment.
unfoldable pub allow : Change → DecideContext → List Judgment → Result (Unit {0})
allow c ctx [] = err Rejection.unjudged
allow c ctx (j ∷ js) = do
  let t = tally no_tally (j ∷ js)
  reject_if (is_reject (last_of j js).decision) Rejection.rejected
  reject_if (not t.any_ok) Rejection.unjudged
  reject_if (needs_human c && not t.human_ok) Rejection.human_required
  reject_if (not (all (contains_text t.judged) ctx.judges)) Rejection.owner_required

unfoldable pub judgments_allow : Change → DecideContext → Result (Unit {0})
unfolding allow
judgments_allow c ctx = allow c ctx c.judgments
