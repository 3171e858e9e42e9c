-- ===== src/Accountability/Change/Cleared.antt =====
-- internal/core/accountability/change.go: the demands of `judgmentsAllow`, read off the judgments.
use keelage.Prelude.{
  ◌≡◌, refl, Bool, true, false, not, ◌&&◌, ◌||◌, inl, inr, ◌↔◌, List, [], ◌∷◌, arith, any, all, Any,
  All, any-Any, Any-any, all-All, All-all, All-imp, Any-imp, Bool-cases,
}
use keelage.Prelude.Text.{text_eq, text_eq_iff, contains_text}
use keelage.Core.Event.{ok}
use keelage.Core.Actor.{Ident, is_human}
use keelage.Core.Context.{DecideContext}
use keelage.Accountability.Change.State.{Judgment, Change}
use keelage.Accountability.Change.Rules.{is_reject}
use keelage.Accountability.Change.Clearance.{
  Tally, no_tally, count_judgment, tally, last_of, needs_human, allow, judgments_allow,
}

abbrev pub accepts : Judgment → Bool
accepts j = not (is_reject j.decision)

-- The judgment does not reject the change, and a human gave it.
abbrev pub HumanAccepts : Judgment → Type 0
HumanAccepts j = (accepts j ≡ true) × (is_human j.by ≡ true)

-- The judgment does not reject the change, and `owner` gave it.
abbrev pub AcceptedBy : Ident → Judgment → Type 0
AcceptedBy owner j = (accepts j ≡ true) × (j.by.id ≡ owner)

abbrev pub LastAccepts : List Judgment → Type 0
LastAccepts [] = ⊥
LastAccepts (j ∷ js) = accepts (last_of j js) ≡ true

-- The latest judgment accepts, a human accepted where one is needed, and so did every owner that
-- the context names.
pub record IsCleared (c : Change) (ctx : DecideContext) (js : List Judgment) : Type 0 where
  pub latest : LastAccepts js
  pub human : needs_human c ≡ true → Any HumanAccepts js
  pub owners : All (λ owner. Any (AcceptedBy owner) js) ctx.judges

any_ok-tally : (t : Tally) (js : List Judgment) → (tally t js).any_ok ≡ (any accepts js || t.any_ok)
unfolding tally count_judgment
any_ok-tally t [] = refl
any_ok-tally t (j ∷ js) = ground (arith, any_ok-tally (count_judgment t j) js)

abbrev human_accepts : Judgment → Bool
human_accepts j = accepts j && is_human j.by

human_ok-tally :
    (t : Tally) (js : List Judgment) → (tally t js).human_ok ≡ (any human_accepts js || t.human_ok)
unfolding tally count_judgment
human_ok-tally t [] = refl
human_ok-tally t (j ∷ js) = ground (arith, human_ok-tally (count_judgment t j) js)

abbrev accepted_by : Ident → Judgment → Bool
accepted_by owner j = accepts j && text_eq j.by.id owner

judged-tally :
    (owner : Ident) (t : Tally) (js : List Judgment)
    → contains_text (tally t js).judged owner
      ≡ (any (accepted_by owner) js || contains_text t.judged owner)
unfolding tally count_judgment contains_text
judged-tally owner t [] = refl
judged-tally owner t (j ∷ js) = ground (arith, judged-tally owner (count_judgment t j) js)

last-any :
    (j : Judgment) (js : List Judgment)
    → accepts (last_of j js) ≡ true
    → any accepts (j ∷ js) ≡ true
last-any j [] h = ground arith
last-any j (k ∷ js) h = ground (arith, last-any k js h)

-- the tests of `allow`, over the judgments themselves
record Tests (c : Change) (ctx : DecideContext) (j : Judgment) (js : List Judgment) : Type 0 where
  latest : accepts (last_of j js) ≡ true
  human : (needs_human c && not (any human_accepts (j ∷ js))) ≡ false
  owners : all (λ owner. any (accepted_by owner) (j ∷ js)) ctx.judges ≡ true

all_judged :
    (judges : List Ident) (js : List Judgment)
    → all (contains_text (tally no_tally js).judged) judges
      ≡ all (λ owner. any (accepted_by owner) js) judges
unfolding contains_text
all_judged [] js = refl
all_judged (o ∷ judges) js = ground (arith, judged-tally o no_tally js, all_judged judges js)

allow-Tests :
    (c : Change) (ctx : DecideContext) (j : Judgment) (js : List Judgment)
    → allow c ctx (j ∷ js) ≡ ok tt
    → Tests c ctx j js
unfolding allow
allow-Tests c ctx j js h = record {
  latest = ground arith;
  human = ground (arith, human_ok-tally no_tally (j ∷ js));
  owners = ground (arith, all_judged ctx.judges (j ∷ js));
}

Tests-allow :
    (c : Change) (ctx : DecideContext) (j : Judgment) (js : List Judgment)
    → Tests c ctx j js
    → allow c ctx (j ∷ js) ≡ ok tt
unfolding allow
Tests-allow c ctx j js t = ground (
  arith,
  t.latest,
  t.human,
  t.owners,
  last-any j js t.latest,
  any_ok-tally no_tally (j ∷ js),
  human_ok-tally no_tally (j ∷ js),
  all_judged ctx.judges (j ∷ js),
)

human_accepts-HumanAccepts : (j : Judgment) → human_accepts j ≡ true → HumanAccepts j
human_accepts-HumanAccepts j h = ground arith

HumanAccepts-human_accepts : (j : Judgment) → HumanAccepts j → human_accepts j ≡ true
HumanAccepts-human_accepts j h = ground arith

accepted_by-AcceptedBy : (o : Ident) (j : Judgment) → accepted_by o j ≡ true → AcceptedBy o j
accepted_by-AcceptedBy o j h = ground (arith, text_eq_iff j.by.id o)

AcceptedBy-accepted_by : (o : Ident) (j : Judgment) → AcceptedBy o j → accepted_by o j ≡ true
AcceptedBy-accepted_by o j h = ground (arith, text_eq_iff j.by.id o)

module _ (js : List Judgment) where
  human_found : any human_accepts js ≡ true → Any HumanAccepts js
  human_found h =
      Any-imp (λ j. human_accepts j ≡ true) HumanAccepts js human_accepts-HumanAccepts
        (any-Any human_accepts js h)

  human_found_of : Any HumanAccepts js → any human_accepts js ≡ true
  human_found_of h =
      Any-any human_accepts js
        (Any-imp HumanAccepts (λ j. human_accepts j ≡ true) js HumanAccepts-human_accepts h)

  owner_found : (o : Ident) → any (accepted_by o) js ≡ true → Any (AcceptedBy o) js
  owner_found o h =
      Any-imp (λ j. accepted_by o j ≡ true) (AcceptedBy o) js (accepted_by-AcceptedBy o)
        (any-Any (accepted_by o) js h)

  owner_found_of : (o : Ident) → Any (AcceptedBy o) js → any (accepted_by o) js ≡ true
  owner_found_of o h =
      Any-any (accepted_by o) js
        (Any-imp (AcceptedBy o) (λ j. accepted_by o j ≡ true) js (AcceptedBy-accepted_by o) h)

owners_found :
    (js : List Judgment) (judges : List Ident)
    → all (λ owner. any (accepted_by owner) js) judges ≡ true
    → All (λ owner. Any (AcceptedBy owner) js) judges
owners_found js judges h =
    All-imp (λ o. any (accepted_by o) js ≡ true) (λ o. Any (AcceptedBy o) js) judges
      (owner_found js) (all-All (λ owner. any (accepted_by owner) js) judges h)

owners_found_of :
    (js : List Judgment) (judges : List Ident)
    → All (λ owner. Any (AcceptedBy owner) js) judges
    → all (λ owner. any (accepted_by owner) js) judges ≡ true
owners_found_of js judges h =
    All-all (λ owner. any (accepted_by owner) js) judges
      (All-imp (λ o. Any (AcceptedBy o) js) (λ o. any (accepted_by o) js ≡ true) judges
        (owner_found_of js) h)

Tests-IsCleared :
    (c : Change) (ctx : DecideContext) (j : Judgment) (js : List Judgment)
    → Tests c ctx j js
    → IsCleared c ctx (j ∷ js)
Tests-IsCleared c ctx j js t = record {
  latest = t.latest;
  human = λ need. human_found (j ∷ js) (ground (arith, t.human));
  owners = owners_found (j ∷ js) ctx.judges t.owners;
}

IsCleared-Tests :
    (c : Change) (ctx : DecideContext) (j : Judgment) (js : List Judgment)
    → IsCleared c ctx (j ∷ js)
    → Tests c ctx j js
IsCleared-Tests c ctx j js k = record {
  latest = k.latest;
  human = elim (Bool-cases (needs_human c)) [
    | inl need ↦ rw (need, human_found_of (j ∷ js) (k.human need)) refl
    | inr free ↦ rw free refl
  ];
  owners = owners_found_of (j ∷ js) ctx.judges k.owners;
}

allow_iff :
    (c : Change) (ctx : DecideContext) (js : List Judgment)
    → (allow c ctx js ≡ ok tt) ↔ IsCleared c ctx js
allow_iff c ctx [] = (λ h. absurd (unfold allow in cc), λ k. absurd k.latest)
allow_iff c ctx (j ∷ js) = (
  λ h. Tests-IsCleared c ctx j js (allow-Tests c ctx j js h),
  λ k. Tests-allow c ctx j js (IsCleared-Tests c ctx j js k),
)

-- `judgmentsAllow` returns no error exactly when the latest judgment accepts, a human accepted if
-- the change is a harness change or was opened at L1 or below, and every owner in the context's
-- list of judges accepted.
pub judgments_allow_iff :
    (c : Change) (ctx : DecideContext)
    → (judgments_allow c ctx ≡ ok tt) ↔ IsCleared c ctx c.judgments
unfolding judgments_allow
judgments_allow_iff c ctx = allow_iff c ctx c.judgments
