-- ===== src/Accountability/Session/Decide.antt =====
-- internal/core/accountability/session.go: `Decide` and `Apply` of a session.
use keelage.Prelude.{
  ◌+◌, Bool, true, false, not, ◌||◌, List, [], ◌∷◌, ◌++◌, all, any, length, is_nil, if◌then◌else◌,
}
use keelage.Prelude.Text.{Text, codes, is_empty, text_eq}
use keelage.Core.Event.{Rejection, Result, ok, err, reject_if, ◌>>◌}
use keelage.Core.Actor.{is_human, is_agent}
use keelage.Core.Actor
use keelage.Core.Context.{DecideContext}
use keelage.Accountability.Session.State.{
  TurnClass, Turn, SessionJudgment, SessionState, Session, no_session, StartSession, RecordTurn,
  EndSession, SessionCommand, SessionEvent,
}
use keelage.Accountability.Session.Digits.{itoa}

abbrev pub is_absent : SessionState → Bool
is_absent SessionState.absent = true
is_absent _ = false

abbrev pub is_open : SessionState → Bool
is_open SessionState.open_session = true
is_open _ = false

-- `s.State == SessionStateEnded || s.State == SessionStateShared`.
abbrev pub may_share : SessionState → Bool
may_share SessionState.ended = true
may_share SessionState.shared = true
may_share _ = false

abbrev pub known_class : TurnClass → Bool
known_class (TurnClass.other _) = false
known_class _ = true

abbrev pub known_part : Text → Bool
known_part p = text_eq p (codes "summary") || text_eq p (codes "judgments")

-- Whether `err != nil` for the error of `m.Agent.Validate()`.
abbrev pub is_invalid : Result (Unit {0}) → Bool
is_invalid (ok _) = false
is_invalid (err _) = true

-- `fallbackSummary`.
unfoldable pub fallback_summary : Session → Text
fallback_summary s =
    s.tool
    ++ (codes " session: "
        ++ (itoa (length s.turns)
            ++ (codes " turns, "
                ++ (itoa (length s.touched)
                    ++ (codes " files, "
                        ++ (itoa (length s.judgments) ++ codes " judgment candidates"))))))

-- The case `StartSession`.
unfoldable pub start_session : Session → StartSession → DecideContext → Result (List SessionEvent)
start_session s m ctx = if not (is_absent s.state) then ok [] else (do
  reject_if (is_empty m.cmd.id || is_empty m.cmd.tool) Rejection.invalid
  reject_if (is_invalid (Actor.validate m.agent) || not (is_agent m.agent)) Rejection.invalid
  ok (SessionEvent.session_started m.cmd.id m.cmd.tool m.repo m.agent ctx.now ∷ []))

-- The case `RecordTurn`.
unfoldable pub record_turn : Session → RecordTurn → DecideContext → Result (List SessionEvent)
record_turn s m ctx = do
  reject_if (not (is_open s.state)) Rejection.bad_state
  reject_if (not (known_class m.class)) Rejection.invalid
  ok (
      SessionEvent.turn_recorded s.id (record {
        seq = length s.turns + 1;
        class = m.class;
        files = m.files;
        signal = m.signal;
        at = ctx.now;
      })
      ∷ [])

-- The case `EndSession`.
unfoldable pub end_session : Session → EndSession → DecideContext → Result (List SessionEvent)
end_session s m ctx =
    if is_absent s.state
    then err Rejection.not_found
    else if not (is_open s.state)
    then ok []
    else ok (
        SessionEvent.session_ended s.id m.reason
          (if is_empty m.summary then fallback_summary s else m.summary) ctx.now
        ∷ [])

-- The case `ShareSession`.
unfoldable pub share_session : Session → List Text → DecideContext → Result (List SessionEvent)
share_session s parts ctx = do
  reject_if (not (may_share s.state)) Rejection.bad_state
  reject_if (not (is_human ctx.actor)) Rejection.human_only
  reject_if (not (all known_part parts)) Rejection.invalid
  reject_if (is_nil parts) Rejection.invalid
  ok (SessionEvent.session_shared s.id parts ctx.now ∷ [])

-- `Decide`.
unfoldable pub decide : Session → SessionCommand → DecideContext → Result (List SessionEvent)
decide s (SessionCommand.start_session m) ctx = start_session s m ctx
decide s (SessionCommand.record_turn m) ctx = record_turn s m ctx
decide s (SessionCommand.end_session m) ctx = end_session s m ctx
decide s (SessionCommand.share_session cmd parts) ctx = share_session s parts ctx
decide s (SessionCommand.other kind) ctx = err Rejection.unknown_command

-- `containsStr`.
abbrev pub contains_str : List Text → Text → Bool
contains_str list x = any (λ s. text_eq s x) list

-- The loop of `Apply` over the files of a turn.
unfoldable pub touch : List Text → List Text → List Text
touch touched [] = touched
touch touched (f ∷ files) =
    touch (if not (contains_str touched f) then touched ++ (f ∷ []) else touched) files

-- `v.Turn.Class == TurnRedirect || v.Turn.Class == TurnRevert`.
abbrev pub is_judged : TurnClass → Bool
is_judged TurnClass.redirect = true
is_judged TurnClass.revert = true
is_judged _ = false

abbrev pub judgment_of : Turn → SessionJudgment
judgment_of t = record {
  turn = t.seq;
  class = t.class;
  files = t.files;
  signal = t.signal;
  at = t.at;
}

-- `Apply`.
unfoldable pub apply : Session → SessionEvent → Session
apply s (SessionEvent.session_started id tool repo agent at) = record no_session {
  id = id;
  tool = tool;
  repo = repo;
  agent = agent;
  owner = agent.owner;
  state = SessionState.open_session;
  started_at = at;
}
apply s (SessionEvent.turn_recorded id turn) = record s {
  turns = s.turns ++ (turn ∷ []);
  touched = touch s.touched turn.files;
  judgments = if is_judged turn.class then s.judgments ++ (judgment_of turn ∷ []) else s.judgments;
}
apply s (SessionEvent.session_ended id reason summary at) = record s {
  state = SessionState.ended;
  ended_at = at;
  reason = reason;
  summary = summary;
}
apply s (SessionEvent.session_shared id parts at) = record s {
  state = SessionState.shared;
  shared = parts;
}
apply s (SessionEvent.other kind) = s
