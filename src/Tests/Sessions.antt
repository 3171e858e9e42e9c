-- ===== src/Tests/Sessions.antt =====
-- A session with turns, and its end.
use keelage.Prelude.{◌≡◌, refl, List, [], ◌∷◌}
use keelage.Prelude.Text.{Text, codes, text_eq}
use keelage.Core.Event.{replay}
use keelage.Core.Aggregate.{after, run}
use keelage.Core.Actor.{is_agent, is_human}
use keelage.Core.Actor
use keelage.Core.Level.{l1}
use keelage.Core.Context.{DecideContext}
use keelage.Accountability.Session.State.{
  TurnClass, SessionState, Session, no_session, SessionCmd, SessionCommand,
}
use keelage.Accountability.Session.Digits.{itoa}
use keelage.Accountability.Session.Decide.{
  fallback_summary, touch, start_session, record_turn, end_session, decide, apply,
}
use keelage.Accountability.Session.Record.{IsSound, run_session-IsSound}
use keelage.Tests.Values.{alice, bot, context}

abbrev cmd : SessionCmd
cmd = record { tool = codes "cc"; id = codes "s1"; idem = [] }

abbrev turn : TurnClass → List Text → SessionCommand
turn class files =
    SessionCommand.record_turn (record { cmd = cmd; class = class; files = files; signal = [] })

abbrev history : List (SessionCommand × DecideContext)
history =
    (SessionCommand.start_session (record { cmd = cmd; repo = []; agent = bot }), context bot 1 l1)
    ∷ (turn TurnClass.accept (codes "a" ∷ codes "b" ∷ []), context bot 2 l1)
    ∷ (turn TurnClass.revert (codes "b" ∷ codes "c" ∷ []), context bot 3 l1)
    ∷ (
      SessionCommand.end_session (record { cmd = cmd; reason = []; summary = [] }),
      context bot 4 l1,
    )
    ∷ []

run_session-IsSound_example : IsSound (run decide apply no_session history)
run_session-IsSound_example = run_session-IsSound history

-- Each file once, and the summary that stands in for one that was not given.
touches : (run decide apply no_session history).touched ≡ codes "a" ∷ codes "b" ∷ codes "c" ∷ []
unfolding run after decide start_session record_turn end_session Actor.validate is_agent replay
    apply touch text_eq
touches = refl

summarises :
    (run decide apply no_session history).summary
    ≡ codes "cc session: 2 turns, 3 files, 1 judgment candidates"
unfolding run after decide start_session record_turn end_session Actor.validate is_agent replay
    apply touch text_eq fallback_summary itoa
summarises = refl

abbrev ended_session : Session
ended_session = record no_session { id = codes "s1"; tool = codes "cc"; state = SessionState.ended }

abbrev sharing : List (SessionCommand × DecideContext)
sharing =
    (SessionCommand.share_session cmd (codes "summary" ∷ []), context alice 5 l1)
    ∷ (turn TurnClass.accept [], context bot 6 l1)
    ∷ []
