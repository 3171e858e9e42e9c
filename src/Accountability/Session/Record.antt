-- ===== src/Accountability/Session/Record.antt =====
-- internal/core/accountability/session.go: what a session's record holds, described by its turns.
use keelage.Prelude.{◌+◌, ◌≡◌, refl, sym, ap, ◌∙◌, ◌||◌, List, length, arith}
use keelage.Prelude.Text.{Text}
use keelage.Core.Event.{replay}
use keelage.Core.Aggregate.{after_elim, run, run_induction}
use keelage.Core.Context.{DecideContext}
use keelage.Accountability.Session.State.{Turn, Session, no_session, SessionCommand, SessionEvent}
use keelage.Accountability.Session.Decide.{contains_str, decide, apply}
use keelage.Accountability.Session.Turns.{
  IsNumbered, candidates, IsDistinct, touched_by, IsNumbered-append, candidates-append,
  contains_str-touch, touch-IsDistinct, touched_by-append,
}
use keelage.Accountability.Session.Accepted.{Records, decide-Records}

-- The lists of a session agree with its turns.
pub record IsSound (s : Session) : Type 0 where
  pub numbered : IsNumbered 1 s.turns
  pub distinct : IsDistinct s.touched
  pub touched : (f : Text) → contains_str s.touched f ≡ touched_by s.turns f
  pub judgments : s.judgments ≡ candidates s.turns

no_session-IsSound : IsSound no_session
unfolding candidates
no_session-IsSound = record { numbered = tt; distinct = tt; touched = λ f. refl; judgments = refl }

recorded-IsSound :
    (s : Session) (id : Text) (t : Turn)
    → IsSound s
    → t.seq ≡ length s.turns + 1
    → IsSound (apply s (SessionEvent.turn_recorded id t))
unfolding apply
recorded-IsSound s id t i e = record {
  numbered = IsNumbered-append 1 s.turns t i.numbered (omega arith);
  distinct = touch-IsDistinct s.touched t.files i.distinct;
  touched = λ f.
      contains_str-touch s.touched t.files f
      ∙ ap (λ b. b || contains_str t.files f) (i.touched f)
      ∙ sym (touched_by-append s.turns t f);
  judgments = rw (candidates-append s.turns t, i.judgments) refl;
}

step-IsSound :
    (s : Session) (ctx : DecideContext) (evs : List SessionEvent)
    → IsSound s
    → Records s ctx evs
    → IsSound (replay apply s evs)
unfolding replay apply candidates
step-IsSound s ctx evs i Records.nothing = i
step-IsSound s ctx evs i (Records.starts m a) = record {
  numbered = tt;
  distinct = tt;
  touched = λ f. refl;
  judgments = refl;
}
step-IsSound s ctx evs i (Records.records t o e) = recorded-IsSound s s.id t i e
step-IsSound s ctx evs i (Records.ends r t o) = record {
  numbered = i.numbered;
  distinct = i.distinct;
  touched = i.touched;
  judgments = i.judgments;
}
step-IsSound s ctx evs i (Records.shares p m u k n) = record {
  numbered = i.numbered;
  distinct = i.distinct;
  touched = i.touched;
  judgments = i.judgments;
}

-- Whatever commands a session's stream is sent, its turns are numbered from 1 without a gap, its
-- touched files are those of its turns, each once, and its judgment candidates are those of its
-- redirect and revert turns, in order.
pub run_session-IsSound :
    (history : List (SessionCommand × DecideContext))
    → IsSound (run decide apply no_session history)
run_session-IsSound history =
    run_induction decide apply IsSound
      (λ s cmd ctx i.
        after_elim decide apply IsSound s cmd ctx i
          (λ evs h. step-IsSound s ctx evs i (decide-Records s cmd ctx h)))
      no_session history no_session-IsSound
