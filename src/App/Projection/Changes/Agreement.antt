-- ===== src/App/Projection/Changes/Agreement.antt =====
-- internal/app/projection.go and internal/core/accountability/change.go: the index of changes beside
-- the aggregates.
use keelage.Prelude.{
  ℕ, ◌+◌, ◌%◌, ◌^◌, ◌≡◌, refl, ap, ◌∙◌, Bool, true, false, inl, inr, Bool-cases, Option-cases, List,
  [], ◌∷◌, ◌++◌, length, length-append, if◌then◌else◌, arith,
}
use keelage.Prelude.Dict.{find, put, find-put}
use keelage.Prelude.Int.{succ_64}
use keelage.Prelude.Text.{text_eq, text_eq_iff}
use keelage.Core.Actor.{Ident}
use keelage.Core.Context.{Time}
use keelage.Core.Event.{replay}
use keelage.Core.ScopeKey.{ScopeKey, global}
use keelage.Accountability.Change.State.{Proposal, Change, no_change, ChangeEvent}
use keelage.Accountability.Change.Decide.{apply}
use keelage.Ledger.Log.{filter}
use keelage.App.Projection.Changes.{
  ChangeSummary, ChangeIndex, current, constraints_of, refs_of, handle_change,
}

-- The change that an event is about.
abbrev pub is_about : Ident → ChangeEvent → Bool
is_about id (ChangeEvent.change_opened v) = text_eq v.id id
is_about id (ChangeEvent.proposal_added i p) = text_eq i id
is_about id (ChangeEvent.judged i j) = text_eq i id
is_about id (ChangeEvent.deployed i d) = text_eq i id
is_about id (ChangeEvent.outcome_recorded i o) = text_eq i id
is_about id (ChangeEvent.settled i derived at) = text_eq i id
is_about id (ChangeEvent.other kind) = false

-- What the index keeps of an aggregate, with a scope and a time that the aggregate does not keep. The
-- count of judgments is of 64 bits.
unfoldable pub summary_of : Change → ScopeKey → Time → ChangeSummary
summary_of c scope updated = record {
  id = c.id;
  kind = c.kind;
  mode = c.mode;
  scope = scope;
  state = c.state;
  autonomy_applied = c.autonomy_applied;
  judgments = length c.judgments % 2 ^ 64;
  constraints = constraints_of c.impact.constraints;
  anchors = c.impact.anchors;
  refs = refs_of c.proposals;
  sessions = c.sessions;
  opened_at = c.opened_at;
  updated_at = updated;
}

-- The scope of the last opening.
abbrev pub opened_scope : ScopeKey → ChangeEvent → ScopeKey
opened_scope scope (ChangeEvent.change_opened v) = v.scope
opened_scope scope _ = scope

-- The time that an event carries.
abbrev pub event_time : Time → ChangeEvent → Time
event_time t (ChangeEvent.change_opened v) = v.at
event_time t (ChangeEvent.proposal_added id p) = p.at
event_time t (ChangeEvent.judged id j) = j.at
event_time t (ChangeEvent.deployed id d) = d.at
event_time t (ChangeEvent.outcome_recorded id o) = o.at
event_time t (ChangeEvent.settled id derived at) = at
event_time t (ChangeEvent.other kind) = t

current-put :
    (d : ChangeIndex) (j id : Ident) (e : ChangeSummary)
    → current (put j e d) id ≡ (if text_eq j id then e else current d id)
unfolding current
current-put d j id e =
    rw (current, find-put id j e d)
      (elim (Bool-cases (text_eq j id)) [ inl h ↦ rw h refl | inr h ↦ rw h refl ])

refs_of-append :
    (ps : List Proposal) (p : Proposal) → refs_of (ps ++ p ∷ []) ≡ refs_of ps ++ p.ref ∷ []
refs_of-append [] p = refl
refs_of-append (q ∷ ps) p = ap (λ rest. q.ref ∷ rest) (refs_of-append ps p)

succ_64_lem : (n m : ℕ) → m ≡ n + 1 → succ_64 (n % 2 ^ 64) ≡ m % 2 ^ 64
succ_64_lem n m h = omega arith

-- An event of the change is shown as the aggregate applies it.
step_own :
    (d : ChangeIndex) (id : Ident) (c : Change) (scope : ScopeKey) (t : Time) (ev : ChangeEvent)
    → is_about id ev ≡ true
    → current d id ≡ summary_of c scope t
    → current (handle_change d ev) id
      ≡ summary_of (apply c ev) (opened_scope scope ev) (event_time t ev)
unfolding handle_change apply summary_of
step_own d id c scope t (ChangeEvent.change_opened v) h e =
    current-put d v.id id _
    ∙ rw h (elim (Option-cases v.proposal) [ inl e ↦ rw e refl | inr (p, e) ↦ rw e refl ])
step_own d id c scope t (ChangeEvent.proposal_added i p) h e =
    let same : i ≡ id = (text_eq_iff i id).0 h in
    current-put d i id _ ∙ rw h (rw (same, e, refs_of-append c.proposals p) refl)
step_own d id c scope t (ChangeEvent.judged i j) h e =
    let same : i ≡ id = (text_eq_iff i id).0 h in
    let count =
      succ_64_lem (length c.judgments) (length (c.judgments ++ j ∷ []))
        (length-append c.judgments (j ∷ [])) in
    current-put d i id _ ∙ rw h (rw (same, e, ← count) refl)
step_own d id c scope t (ChangeEvent.deployed i o) h e =
    let same : i ≡ id = (text_eq_iff i id).0 h in current-put d i id _ ∙ rw h (rw (same, e) refl)
step_own d id c scope t (ChangeEvent.outcome_recorded i o) h e =
    let same : i ≡ id = (text_eq_iff i id).0 h in current-put d i id _ ∙ rw h (rw (same, e) refl)
step_own d id c scope t (ChangeEvent.settled i derived at) h e =
    let same : i ≡ id = (text_eq_iff i id).0 h in current-put d i id _ ∙ rw h (rw (same, e) refl)
step_own d id c scope t (ChangeEvent.other kind) h e = e

-- One of another change is not shown.
step_other :
    (d : ChangeIndex) (id : Ident) (ev : ChangeEvent)
    → is_about id ev ≡ false
    → current (handle_change d ev) id ≡ current d id
unfolding handle_change
step_other d id (ChangeEvent.change_opened v) h = current-put d v.id id _ ∙ rw h refl
step_other d id (ChangeEvent.proposal_added i p) h = current-put d i id _ ∙ rw h refl
step_other d id (ChangeEvent.judged i j) h = current-put d i id _ ∙ rw h refl
step_other d id (ChangeEvent.deployed i o) h = current-put d i id _ ∙ rw h refl
step_other d id (ChangeEvent.outcome_recorded i o) h = current-put d i id _ ∙ rw h refl
step_other d id (ChangeEvent.settled i derived at) h = current-put d i id _ ∙ rw h refl
step_other d id (ChangeEvent.other kind) h = refl

replay_current :
    (d : ChangeIndex) (id : Ident) (c : Change) (scope : ScopeKey) (t : Time)
    (evs : List ChangeEvent)
    → current d id ≡ summary_of c scope t
    → current (replay handle_change d evs) id
      ≡ summary_of
          (replay apply c (filter (is_about id) evs))
          (replay opened_scope scope (filter (is_about id) evs))
          (replay event_time t (filter (is_about id) evs))
unfolding replay filter
replay_current d id c scope t [] e = e
replay_current d id c scope t (ev ∷ evs) e = elim (Bool-cases (is_about id ev)) [
  | inl h ↦ rw h (
      replay_current (handle_change d ev) id (apply c ev) (opened_scope scope ev) (event_time t ev)
        evs (step_own d id c scope t ev h e))
  | inr h ↦ rw h (replay_current (handle_change d ev) id c scope t evs (step_other d id ev h ∙ e))
]

-- After the events of all changes, in any interleaving, the index has for every id what it keeps of
-- the aggregate that the change's own events lead to, the scope that the last of them to open it
-- gives, and the time of the last of them.
pub handle_change_agrees :
    (id : Ident) (evs : List ChangeEvent)
    → current (replay handle_change [] evs) id
      ≡ summary_of
          (replay apply no_change (filter (is_about id) evs))
          (replay opened_scope global (filter (is_about id) evs))
          (replay event_time 0 (filter (is_about id) evs))
unfolding current find summary_of
handle_change_agrees id evs = replay_current [] id no_change global 0 evs refl
