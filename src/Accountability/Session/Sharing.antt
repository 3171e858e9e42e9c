-- ===== src/Accountability/Session/Sharing.antt =====
-- internal/core/accountability/session.go: sessions that have ended, and what of them is shared.
use keelage.Prelude.{◌≡◌, refl, Bool, true, false, ◌∙◌, List, all, is_nil, not, sym, arith}
use keelage.Core.Event.{replay}
use keelage.Core.Aggregate.{after_elim, run, run_induction}
use keelage.Core.Context.{DecideContext}
use keelage.Accountability.Session.State.{
  SessionState, Session, no_session, SessionCommand, SessionEvent,
}
use keelage.Accountability.Session.Decide.{is_absent, is_open, may_share, known_part, decide, apply}
use keelage.Accountability.Session.Accepted.{Records, decide-Records}

abbrev is_shared : SessionState → Bool
is_shared SessionState.shared = true
is_shared _ = false

never : (s : SessionState) → is_absent s ≡ true → may_share s ≡ true → ⊥
never s a c = ground arith

ended : (s : SessionState) → is_open s ≡ true → may_share s ≡ true → ⊥
ended s o c = ground arith

-- `s'` is the ended session `s` later: only what is shared of it may differ.
pub record IsSealed (s s' : Session) : Type 0 where
  pub closed : may_share s'.state ≡ true
  pub same : record s' { state = s.state; shared = s.shared } ≡ s

step-IsSealed :
    (s t : Session) (ctx : DecideContext) (evs : List SessionEvent)
    → IsSealed s t
    → Records t ctx evs
    → IsSealed s (replay apply t evs)
unfolding replay apply
step-IsSealed s t ctx evs i Records.nothing = i
step-IsSealed s t ctx evs i (Records.starts m a) = absurd (never t.state a i.closed)
step-IsSealed s t ctx evs i (Records.records u o e) = absurd (ended t.state o i.closed)
step-IsSealed s t ctx evs i (Records.ends r u o) = absurd (ended t.state o i.closed)
step-IsSealed s t ctx evs i (Records.shares p m u k n) = record { closed = refl; same = i.same }

-- After its end nothing of a session changes but the choice of what is shared: every sequence of
-- commands leaves its turns, files, judgment candidates, times and summary as they are.
pub run_ended :
    (s : Session) (history : List (SessionCommand × DecideContext))
    → may_share s.state ≡ true
    → IsSealed s (run decide apply s history)
run_ended s history h =
    run_induction decide apply (IsSealed s)
      (λ t cmd ctx i.
        after_elim decide apply (IsSealed s) t cmd ctx i
          (λ evs e. step-IsSealed s t ctx evs i (decide-Records t cmd ctx e)))
      s history (record { closed = h; same = refl })

-- Nothing is shared of a session before its end, and then a summary or judgments, at least one.
pub IsShared : Session → Type 0
IsShared s = (all known_part s.shared ≡ true) × (is_shared s.state ≡ not (is_nil s.shared))

open_unshared : (s : SessionState) → is_open s ≡ true → is_shared s ≡ false
open_unshared s o = ground arith

step-IsShared :
    (s : Session) (ctx : DecideContext) (evs : List SessionEvent)
    → IsShared s
    → Records s ctx evs
    → IsShared (replay apply s evs)
unfolding replay apply IsShared
step-IsShared s ctx evs i Records.nothing = i
step-IsShared s ctx evs i (Records.starts m a) = (refl, refl)
step-IsShared s ctx evs i (Records.records t o e) = i
step-IsShared s ctx evs i (Records.ends r t o) = (i.0, sym (open_unshared s.state o) ∙ i.1)
step-IsShared s ctx evs i (Records.shares p m u k n) = (k, ground arith)

-- Whatever commands a session's stream is sent, a session in state `shared` shares at least one
-- part, a session in another state none, and the only parts are the summary and the judgments.
pub run_session-IsShared :
    (history : List (SessionCommand × DecideContext))
    → IsShared (run decide apply no_session history)
unfolding IsShared
run_session-IsShared history =
    run_induction decide apply IsShared
      (λ s cmd ctx i.
        after_elim decide apply IsShared s cmd ctx i
          (λ evs h. step-IsShared s ctx evs i (decide-Records s cmd ctx h)))
      no_session history (refl, refl)
