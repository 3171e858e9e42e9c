-- ===== src/App/Projection/Scopes/Agreement.antt =====
-- internal/app/projection.go and internal/core/harness/scope.go: the index of scopes beside the
-- aggregates.
use keelage.Prelude.{◌≡◌, refl, ap, ◌∙◌, true, false, inl, inr, Bool-cases, List, [], ◌∷◌}
use keelage.Prelude.Dict.{find, put, find-put}
use keelage.Prelude.Text.{text_eq}
use keelage.Core.Event.{replay}
use keelage.Core.ScopeKey.{ScopeKey, to_text}
use keelage.Harness.Scope.State.{Scope, new_scope, ScopeEvent}
use keelage.Harness.Scope.Decide.{apply}
use keelage.Ledger.Log.{filter}
use keelage.App.Projection.Scopes.{
  ScopeEntry, ScopeIndex, get, handle_scope, is_of, Shows, get-same,
}

get-put_same :
    (d : ScopeIndex) (j k : ScopeKey) (e : ScopeEntry)
    → text_eq (to_text j) (to_text k) ≡ true
    → get (put (to_text j) e d) k ≡ e
unfolding get
get-put_same d j k e h = rw (get, find-put (to_text k) (to_text j) e d, h) refl

get-put_other :
    (d : ScopeIndex) (j k : ScopeKey) (e : ScopeEntry)
    → text_eq (to_text j) (to_text k) ≡ false
    → get (put (to_text j) e d) k ≡ get d k
unfolding get
get-put_other d j k e h = rw (get, find-put (to_text k) (to_text j) e d, h) refl

-- An event of the scope is shown as the aggregate applies it.
step-Shows :
    (d : ScopeIndex) (k : ScopeKey) (s : Scope) (ev : ScopeEvent)
    → is_of k ev ≡ true
    → Shows d k s
    → Shows (handle_scope d ev) k (apply s ev)
unfolding handle_scope apply
step-Shows d k s (ScopeEvent.autonomy_changed v) h i =
    let one = get-same d v.key k s h i in
    let same = get-put_same d v.key k (record (get d v.key) { level = v.to }) h in
    record { level = ap (λ e. e.level) same; cap = ap (λ e. e.cap) same ∙ one.cap }
step-Shows d k s (ScopeEvent.cap_changed v) h i =
    let one = get-same d v.key k s h i in
    let same = get-put_same d v.key k (record (get d v.key) { cap = v.to }) h in
    record { level = ap (λ e. e.level) same ∙ one.level; cap = ap (λ e. e.cap) same }
step-Shows d k s (ScopeEvent.exception_raised v) h i =
    let level = i.level in let cap = i.cap in record { level = level; cap = cap }
step-Shows d k s (ScopeEvent.other kind) h i = i

-- One of another scope is not shown.
skip-Shows :
    (d : ScopeIndex) (k : ScopeKey) (s : Scope) (ev : ScopeEvent)
    → is_of k ev ≡ false
    → Shows d k s
    → Shows (handle_scope d ev) k s
unfolding handle_scope
skip-Shows d k s (ScopeEvent.autonomy_changed v) h i =
    let level = i.level in
    let cap = i.cap in
    let same = get-put_other d v.key k (record (get d v.key) { level = v.to }) h in
    record { level = rw same level; cap = rw same cap }
skip-Shows d k s (ScopeEvent.cap_changed v) h i =
    let level = i.level in
    let cap = i.cap in
    let same = get-put_other d v.key k (record (get d v.key) { cap = v.to }) h in
    record { level = rw same level; cap = rw same cap }
skip-Shows d k s (ScopeEvent.exception_raised v) h i = i
skip-Shows d k s (ScopeEvent.other kind) h i = i

replay-Shows :
    (d : ScopeIndex) (k : ScopeKey) (s : Scope) (evs : List ScopeEvent)
    → Shows d k s
    → Shows (replay handle_scope d evs) k (replay apply s (filter (is_of k) evs))
unfolding replay filter
replay-Shows d k s [] i = i
replay-Shows d k s (ev ∷ evs) i = elim (Bool-cases (is_of k ev)) [
  | inl h ↦ rw h (replay-Shows (handle_scope d ev) k (apply s ev) evs (step-Shows d k s ev h i))
  | inr h ↦ rw h (replay-Shows (handle_scope d ev) k s evs (skip-Shows d k s ev h i))
]

-- After the events of all scopes, in any interleaving, the index has for every scope the level and
-- the cap that its own aggregate reaches from its own events.
pub handle_scope_agrees :
    (k : ScopeKey) (evs : List ScopeEvent)
    → Shows (replay handle_scope [] evs) k (replay apply (new_scope k) (filter (is_of k) evs))
unfolding get find
handle_scope_agrees k evs =
    replay-Shows [] k (new_scope k) evs (record { level = refl; cap = refl })
