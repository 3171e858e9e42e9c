-- ===== src/Tests/Core.antt =====
-- Scope keys, levels, actors and hashes.
use keelage.Prelude.{◌≡◌, ◌↔◌, refl, true, none, some}
use keelage.Prelude.Text.{Text, codes, split, text_eq, cut_prefix, cut, contains_any, itoa}
use keelage.Core.Level.{l2, marshal_text, to_text}
use keelage.Core.ScopeKey.{ScopeKey, global, contains, parse_scope_key, glob_match}
use keelage.Core.ScopeKey
use keelage.Core.ScopeKey.RoundTrip.{parse_scope_key-to_text, to_text-parse_scope_key}
use keelage.Core.ScopeKey.Containment.{Covers, contains_iff}
use keelage.Core.Hash3.{Hash3, HashChange, cmp}
use keelage.Tests.Values.{literal_std, team_scope}

marshals_l2 : marshal_text l2 ≡ some (codes "L2")
unfolding marshal_text to_text itoa
marshals_l2 = refl

abbrev team_text : Text
team_text = codes "org=acme|product=|team=core|repo=shop|path=src|person="

valid_team_scope : ScopeKey.validate team_scope ≡ none
unfolding ScopeKey.validate text_eq contains_any
valid_team_scope = refl

team_scope_text : ScopeKey.to_text team_scope ≡ team_text
unfolding ScopeKey.to_text
team_scope_text = refl

parse_scope_key-to_text_example : parse_scope_key (ScopeKey.to_text team_scope) ≡ (team_scope, none)
parse_scope_key-to_text_example = parse_scope_key-to_text team_scope valid_team_scope

parses_team_text : parse_scope_key team_text ≡ (team_scope, none)
unfolding parse_scope_key ScopeKey.validate split text_eq cut_prefix cut contains_any
    ScopeKey.axis_value
parses_team_text = refl

to_text-parse_scope_key_example : ScopeKey.to_text team_scope ≡ team_text
to_text-parse_scope_key_example = to_text-parse_scope_key team_text team_scope parses_team_text

contains_iff_example : (contains global team_scope ≡ true) ↔ Covers global team_scope
contains_iff_example = contains_iff global team_scope

abbrev old_hash : Hash3
old_hash = record { signature = codes "s"; body = codes "b"; file = codes "f" }

abbrev new_hash : Hash3
new_hash = record { signature = codes "s"; body = codes "c"; file = codes "g" }

body_differs : cmp old_hash new_hash ≡ HashChange.hash_body
unfolding cmp text_eq
body_differs = refl
