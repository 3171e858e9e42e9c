-- ===== src/Accountability/Session/Accepted.antt =====
-- internal/core/accountability/session.go: what a command has passed when it is accepted.
use keelage.Prelude.{
  ◌+◌, ◌≡◌, refl, true, false, ◌⊎◌, inl, inr, List, [], ◌∷◌, all, length, is_nil, if◌then◌else◌,
  arith,
}
use keelage.Prelude.Text.{Text, is_empty}
use keelage.Core.Event.{ok}
use keelage.Core.Actor.{is_human}
use keelage.Core.Context.{DecideContext}
use keelage.Accountability.Session.State.{
  Turn, Session, StartSession, RecordTurn, EndSession, SessionCommand, SessionEvent,
}
use keelage.Accountability.Session.Decide.{
  is_absent, is_open, may_share, known_part, fallback_summary, start_session, record_turn,
  end_session, share_session, decide,
}

-- The events of an accepted command, by kind.
pub data Records (s : Session) (ctx : DecideContext) : List SessionEvent → Type 0 where
  nothing : Records s ctx []
  starts :
      (m : StartSession)
      → is_absent s.state ≡ true
      → Records s ctx (SessionEvent.session_started m.cmd.id m.cmd.tool m.repo m.agent ctx.now ∷ [])
  records :
      (t : Turn)
      → is_open s.state ≡ true
      → t.seq ≡ length s.turns + 1
      → Records s ctx (SessionEvent.turn_recorded s.id t ∷ [])
  ends :
      (reason summary : Text)
      → is_open s.state ≡ true
      → Records s ctx (SessionEvent.session_ended s.id reason summary ctx.now ∷ [])
  shares :
      (parts : List Text)
      → may_share s.state ≡ true
      → is_human ctx.actor ≡ true
      → all known_part parts ≡ true
      → is_nil parts ≡ false
      → Records s ctx (SessionEvent.session_shared s.id parts ctx.now ∷ [])

start_cases :
    (s : Session) (m : StartSession) (ctx : DecideContext) {evs : List SessionEvent}
    → start_session s m ctx ≡ ok evs
    → (evs ≡ [])
      ⊎ ((is_absent s.state ≡ true)
          × (evs ≡ SessionEvent.session_started m.cmd.id m.cmd.tool m.repo m.agent ctx.now ∷ []))
unfolding start_session
start_cases s m ctx h = ground arith

record_lem :
    (s : Session) (m : RecordTurn) (ctx : DecideContext) {evs : List SessionEvent}
    → record_turn s m ctx ≡ ok evs
    → (is_open s.state ≡ true)
      × (evs
          ≡ SessionEvent.turn_recorded s.id (record {
            seq = length s.turns + 1;
            class = m.class;
            files = m.files;
            signal = m.signal;
            at = ctx.now;
          })
            ∷ [])
unfolding record_turn
record_lem s m ctx h = (ground arith, ground arith)

end_cases :
    (s : Session) (m : EndSession) (ctx : DecideContext) {evs : List SessionEvent}
    → end_session s m ctx ≡ ok evs
    → (evs ≡ [])
      ⊎ ((is_open s.state ≡ true)
          × (evs
              ≡ SessionEvent.session_ended s.id m.reason
                  (if is_empty m.summary then fallback_summary s else m.summary)
                  ctx.now
                ∷ []))
unfolding end_session
end_cases s m ctx h = ground arith

share_lem :
    (s : Session) (parts : List Text) (ctx : DecideContext) {evs : List SessionEvent}
    → share_session s parts ctx ≡ ok evs
    → (may_share s.state ≡ true)
      × ((is_human ctx.actor ≡ true)
          × ((all known_part parts ≡ true)
              × ((is_nil parts ≡ false)
                  × (evs ≡ SessionEvent.session_shared s.id parts ctx.now ∷ []))))
unfolding share_session
share_lem s parts ctx h =
    (ground arith, (ground arith, (ground arith, (ground arith, ground arith))))

pub decide-Records :
    (s : Session) (cmd : SessionCommand) (ctx : DecideContext) {evs : List SessionEvent}
    → decide s cmd ctx ≡ ok evs
    → Records s ctx evs
unfolding decide
decide-Records s (SessionCommand.start_session m) ctx h = elim (start_cases s m ctx h) [
  | inl e ↦ rw e nothing
  | inr (a, e) ↦ rw e (starts m a)
]
decide-Records s (SessionCommand.record_turn m) ctx h =
    let k = record_lem s m ctx h in rw k.1 (records _ k.0 refl)
decide-Records s (SessionCommand.end_session m) ctx h = elim (end_cases s m ctx h) [
  | inl e ↦ rw e nothing
  | inr (o, e) ↦ rw e (ends m.reason _ o)
]
decide-Records s (SessionCommand.share_session cmd parts) ctx h =
    let (m, (u, (p, (n, e)))) = share_lem s parts ctx h in rw e (shares parts m u p n)
decide-Records s (SessionCommand.other kind) ctx h = ground arith
