-- ===== src/App/Projection/Scopes.antt =====
-- internal/app/projection.go: `ScopeIndex`, the declared scopes, and the effective level and cap.
pub mod Agreement
pub mod Narrow
pub mod Effective
use keelage.Prelude.{
  ◌≡◌, ◌≢◌, refl, sym, ◌∙◌, Bool, true, false, inl, inr, Option, none, some, Bool-cases,
  Option-cases, List, [], ◌∷◌, map, All, if◌then◌else◌, arith,
}
use keelage.Prelude.Dict.{Dict, find, put, find-put, IsDict, All-put, put-IsDict, All-find}
use keelage.Prelude.Int.{ltb_ℤ}
use keelage.Prelude.Text.{Text, text_eq, text_eq_iff}
use keelage.Core.Std.{Std}
use keelage.Core.Event.{replay}
use keelage.Core.Level.{Level, l0, max_level}
use keelage.Core.ScopeKey.{ScopeKey, to_text}
use keelage.Core.ScopeKey.Resolve.{ObjectKind, resolve}
use keelage.Harness.Scope.State.{Scope, new_scope, ScopeEvent}
use keelage.Harness.Scope.Decide.{apply}

pub record ScopeEntry : Type 0 where
  pub key : ScopeKey
  pub level : Level
  pub cap : Level

-- `ScopeIndex`.
abbrev pub ScopeIndex : Type 0
ScopeIndex = Dict ScopeEntry

-- `ScopeEntry{Key: k, Level: core.L0, Cap: core.MaxLevel}`.
abbrev pub undeclared : ScopeKey → ScopeEntry
undeclared k = record { key = k; level = l0; cap = max_level }

abbrev pub entry_or : ScopeEntry → Option ScopeEntry → ScopeEntry
entry_or other none = other
entry_or other (some e) = e

-- `get`.
unfoldable pub get : ScopeIndex → ScopeKey → ScopeEntry
get s k = entry_or (undeclared k) (find (to_text k) s)

-- `ScopeIndex.Handle`.
unfoldable pub handle_scope : ScopeIndex → ScopeEvent → ScopeIndex
handle_scope s (ScopeEvent.autonomy_changed v) =
    put (to_text v.key) (record (get s v.key) { level = v.to }) s
handle_scope s (ScopeEvent.cap_changed v) =
    put (to_text v.key) (record (get s v.key) { cap = v.to }) s
handle_scope s (ScopeEvent.exception_raised v) = s
handle_scope s (ScopeEvent.other kind) = s

-- `ScopeEntry{}`, what a missing key gives.
abbrev zero_entry : ScopeEntry
zero_entry = record {
  key = record { org = []; product = []; team = []; repo = []; path_glob = []; person = [] };
  level = l0;
  cap = l0;
}

-- `s.entries[k.String()]`.
abbrev pub entry_of : ScopeIndex → ScopeKey → ScopeEntry
entry_of s k = entry_or zero_entry (find (to_text k) s)

-- The loop of `Effective`.
unfoldable pub narrow : ScopeIndex → Level → Level → List ScopeKey → Level × Level
narrow s level cap [] = (level, cap)
narrow s level cap (k ∷ keys) =
    let e = entry_of s k in narrow s e.level (if ltb_ℤ e.cap cap then e.cap else cap) keys

-- `if level > cap { level = cap }`.
abbrev pub clamp : Level × Level → Level × Level
clamp (level, cap) = (if ltb_ℤ cap level then cap else level, cap)

-- `Effective`.
unfoldable pub effective : ⦃go : Std⦄ → ScopeIndex → ScopeKey → Level × Level
unfolding narrow
effective s target = clamp (
    narrow s l0 max_level
      (resolve target (map (λ (e : Text × ScopeEntry). e.1.key) s) ObjectKind.constraint))

-- Every entry stands under the text of its key, and no text twice.
pub record IsScopeIndex (s : ScopeIndex) : Type 0 where
  pub keyed : All (λ (e : Text × ScopeEntry). e.0 ≡ to_text e.1.key) s
  pub dict : IsDict s

get-key : (s : ScopeIndex) (k : ScopeKey) → IsScopeIndex s → to_text (get s k).key ≡ to_text k
unfolding get
get-key s k i = elim (Option-cases (find (to_text k) s)) [
  | inl h ↦ rw (get, h) refl
  | inr (e, h) ↦
      rw (get, h)
        (sym
          (All-find (λ (e : Text × ScopeEntry). e.0 ≡ to_text e.1.key) (to_text k) e s i.keyed h))
]

put-IsScopeIndex :
    (s : ScopeIndex) (k : ScopeKey) (e : ScopeEntry)
    → IsScopeIndex s
    → to_text e.key ≡ to_text k
    → IsScopeIndex (put (to_text k) e s)
put-IsScopeIndex s k e i h = record {
  keyed =
      All-put (λ (e : Text × ScopeEntry). e.0 ≡ to_text e.1.key) (to_text k) e s (sym h) i.keyed;
  dict = put-IsDict (to_text k) e s i.dict;
}

handle_scope-IsScopeIndex :
    (s : ScopeIndex) (ev : ScopeEvent) → IsScopeIndex s → IsScopeIndex (handle_scope s ev)
unfolding handle_scope
handle_scope-IsScopeIndex s (ScopeEvent.autonomy_changed v) i =
    put-IsScopeIndex s v.key (record (get s v.key) { level = v.to }) i (get-key s v.key i)
handle_scope-IsScopeIndex s (ScopeEvent.cap_changed v) i =
    put-IsScopeIndex s v.key (record (get s v.key) { cap = v.to }) i (get-key s v.key i)
handle_scope-IsScopeIndex s (ScopeEvent.exception_raised v) i = i
handle_scope-IsScopeIndex s (ScopeEvent.other kind) i = i

-- The index after the events of all scopes, in the order of the ledger.
pub replay_scopes-IsScopeIndex :
    (s : ScopeIndex) (evs : List ScopeEvent)
    → IsScopeIndex s
    → IsScopeIndex (replay handle_scope s evs)
unfolding replay
replay_scopes-IsScopeIndex s [] i = i
replay_scopes-IsScopeIndex s (ev ∷ evs) i =
    replay_scopes-IsScopeIndex (handle_scope s ev) evs (handle_scope-IsScopeIndex s ev i)

-- The event is one of the scope of this key.
abbrev pub is_of : ScopeKey → ScopeEvent → Bool
is_of k (ScopeEvent.autonomy_changed v) = text_eq (to_text v.key) (to_text k)
is_of k (ScopeEvent.cap_changed v) = text_eq (to_text v.key) (to_text k)
is_of k (ScopeEvent.exception_raised v) = text_eq (to_text v.key) (to_text k)
is_of k (ScopeEvent.other kind) = false

-- The index has the level and the cap of the aggregate.
pub record Shows (d : ScopeIndex) (k : ScopeKey) (s : Scope) : Type 0 where
  pub level : (get d k).level ≡ s.level
  pub cap : (get d k).cap ≡ s.cap

get-same :
    (d : ScopeIndex) (j k : ScopeKey) (s : Scope)
    → text_eq (to_text j) (to_text k) ≡ true
    → Shows d k s
    → Shows d j s
unfolding get
get-same d j k s h i =
    let same : to_text j ≡ to_text k = (text_eq_iff (to_text j) (to_text k)).0 h in
    elim (Option-cases (find (to_text k) d)) [
      | inl e ↦
          let level = i.level in
          let cap = i.cap in
          record {
            level = rw (get, same, e) (ground arith);
            cap = rw (get, same, e) (ground arith);
          }
      | inr (v, e) ↦
          let level = i.level in
          let cap = i.cap in
          record {
            level = rw (get, same, e) (ground arith);
            cap = rw (get, same, e) (ground arith);
          }
    ]
