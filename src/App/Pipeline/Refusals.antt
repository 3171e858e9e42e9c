-- ===== src/App/Pipeline/Refusals.antt =====
-- internal/app/pipeline.go and internal/app/rejected.go: commands that are refused.
use keelage.Prelude.{
  ◌≡◌, ◌≢◌, refl, ap, Bool, true, false, ◌⊎◌, inl, inr, none, some, Bool-cases, Option-cases, List,
  [], ◌∷◌, arith,
}
use keelage.Prelude.Text.{Text, text_eq}
use keelage.Core.Actor.{ActorRef}
use keelage.Core.Context.{Time}
use keelage.Core.Envelope.{Envelope}
use keelage.Core.Event.{Rejection}
use keelage.Ledger.State.{LedgerError, Range, any_version}
use keelage.Ledger.Port.{Contract, of_stream, Extends}
use keelage.App.Options.{rejected_stream, Rejected, Options, World, Reply, HandleError}
use keelage.App.Pipeline.{
  Handled, project_first, rejection_appended, rejection_draft, append_rejected, record_rejection,
  fill, handle,
}
use keelage.App.Pipeline.Ends.{is_rejected, Commits, Ends, handle-Ends}
use keelage.App.Pipeline.Written.{Extends-other, publish_written-Publishes}

module _ {L P S C E : Type 0} (o : Options L P S C E) (k : Contract L o.ledger) where
  -- The rejection of a command.
  abbrev pub rejection : ActorRef → C → Rejection → Rejected
  rejection actor cmd code = record {
    command = o.command.kind cmd;
    target = o.command.stream cmd;
    code = code;
    actor = actor;
  }

  -- No stream but that of the rejections has changed.
  abbrev pub Spares : World L P → World L P → Type 0
  Spares w w' =
      (other : Text)
      → text_eq rejected_stream other ≡ false
      → of_stream other (k.log w'.ledger) ≡ of_stream other (k.log w.ledger)

  project_first-ledger :
      (w : World L P) (ev : Rejected) (found : LedgerError ⊎ List Envelope)
      → (project_first o w ev found).ledger ≡ w.ledger
  project_first-ledger w ev (inl problem) = refl
  project_first-ledger w ev (inr []) = refl
  project_first-ledger w ev (inr (e ∷ written)) = refl

  -- The rejection was appended to the stream of the rejections, as one record with its body.
  pub record Logged (ev : Rejected) (now : Time) (w w' : World L P) : Type 0 where
    pub body : Text
    pub encodes : o.codec.encode_rejected ev ≡ some body
    pub range : Range
    pub extends :
        Extends rejected_stream any_version
          (rejection_draft o ev now body ∷ [])
          (k.log w.ledger)
          range
          (k.log w'.ledger)

  -- The rejection could not be encoded, or the ledger refused it.
  abbrev pub IsUnwritable : Rejected → Time → World L P → Type 0
  IsUnwritable ev now w =
      (o.codec.encode_rejected ev ≡ none)
      ⊎ ((body : Text) × (problem : LedgerError) × (o.codec.encode_rejected ev ≡ some body)
          × ((o.ledger.append w.ledger rejected_stream any_version
                (rejection_draft o ev now body ∷ [])).0
              ≡ inl problem))

  -- What a command leaves that ends with this error.
  abbrev pub Leaves : ActorRef → C → Time → HandleError → World L P → World L P → Type 0
  Leaves actor cmd now (HandleError.rejected code) w w' = Logged (rejection actor cmd code) now w w'
  Leaves actor cmd now (HandleError.rejected_unrecorded code) w w' =
      IsUnwritable (rejection actor cmd code) now w × (k.log w'.ledger ≡ k.log w.ledger)
  Leaves actor cmd now _ w w' = k.log w'.ledger ≡ k.log w.ledger

  pub record Recorded (actor : ActorRef) (cmd : C) (now : Time) (problem : HandleError)
      (w w' : World L P) : Type 0 where
    pub leaves : Leaves actor cmd now problem w w'
    pub spares : Spares w w'
    pub good : k.IsGood w'.ledger

  -- How the append of a rejection ends.
  record EndsAppend (ev : Rejected) (now : Time) (w : World L P) (end : Bool × World L P)
      : Type 0 where
    pub logged : end.0 ≡ true → Logged ev now w end.1
    pub kept : end.0 ≡ false → IsUnwritable ev now w × (k.log end.1.ledger ≡ k.log w.ledger)
    pub spares : Spares w end.1
    pub good : k.IsGood end.1.ledger

  appended-EndsAppend :
      (ev : Rejected) (now : Time) (body : Text) (w : World L P) (end : (LedgerError ⊎ Range) × L)
      → k.IsGood w.ledger
      → o.codec.encode_rejected ev ≡ some body
      → o.ledger.append w.ledger rejected_stream any_version (rejection_draft o ev now body ∷ [])
        ≡ end
      → EndsAppend ev now w (rejection_appended o ev w end)
  appended-EndsAppend ev now body w (inl problem, next) g encodes h =
      let (same, good) =
        k.refuses w.ledger rejected_stream any_version (rejection_draft o ev now body ∷ []) problem
          next g h in
      record {
        logged = λ fine. cc;
        kept = λ bad. (inr (body, problem, encodes, ap (λ x. x.0) h), same);
        spares = λ other ne. ap (of_stream other) same;
        good = good;
      }
  appended-EndsAppend ev now body w (inr rng, next) g encodes h =
      let draft = rejection_draft o ev now body in
      let (x, good) = k.extends w.ledger rejected_stream any_version (draft ∷ []) rng next g h in
      let kept =
        project_first-ledger (record w { ledger = next }) ev
          (o.ledger.read next rejected_stream rng.from_ver) in
      record {
        logged =
            λ fine. record { body = body; encodes = encodes; range = rng; extends = rw kept x };
        kept = λ bad. cc;
        spares = λ other ne. rw kept (
            Extends-other rejected_stream any_version (draft ∷ []) (k.log w.ledger) rng (k.log next)
              other x ne);
        good = rw kept good;
      }

  append_rejected-EndsAppend :
      (ev : Rejected) (now : Time) (w : World L P)
      → k.IsGood w.ledger
      → EndsAppend ev now w (append_rejected o ev now w)
  unfolding append_rejected
  append_rejected-EndsAppend ev now w g = elim (Option-cases (o.codec.encode_rejected ev)) [
    | inl bad ↦
        rw (append_rejected, bad)
          (record {
            logged = λ fine. cc;
            kept = λ unfit. (inl bad, refl);
            spares = λ other ne. refl;
            good = g;
          })
    | inr (body, encodes) ↦
        rw (append_rejected, encodes) (appended-EndsAppend ev now body w _ g encodes refl)
  ]

  -- A rejection is always answered with an error.
  pub record_rejection-Fails :
      (answer : Reply E) (target : Text) (actor : ActorRef) (cmd : C) (now : Time)
      (code : Rejection) (w : World L P)
      → (record_rejection o answer target actor cmd now code w).0.1 ≢ none
  unfolding record_rejection
  record_rejection-Fails answer target actor cmd now code w h = ground arith

  record_rejection-Recorded :
      (answer : Reply E) (actor : ActorRef) (cmd : C) (now : Time) (code : Rejection)
      (w : World L P) (problem : HandleError)
      → k.IsGood w.ledger
      → (record_rejection o answer (o.command.stream cmd) actor cmd now code w).0.1 ≡ some problem
      → Recorded actor cmd now problem w
          (record_rejection o answer (o.command.stream cmd) actor cmd now code w).1
  unfolding record_rejection
  record_rejection-Recorded answer actor cmd now code w problem g h =
      let a = append_rejected-EndsAppend (rejection actor cmd code) now w g in
      elim (Bool-cases (append_rejected o (rejection actor cmd code) now w).0) [
        | inl fine ↦
            let same : problem ≡ HandleError.rejected code = ground arith in
            rw same (record { leaves = a.logged fine; spares = a.spares; good = a.good })
        | inr bad ↦
            let same : problem ≡ HandleError.rejected_unrecorded code = ground arith in
            rw same (record { leaves = a.kept bad; spares = a.spares; good = a.good })
      ]

  -- Every other error leaves the log as it was.
  other-Leaves :
      (actor : ActorRef) (cmd : C) (now : Time) (problem : HandleError) (w w' : World L P)
      → is_rejected problem ≡ false
      → k.log w'.ledger ≡ k.log w.ledger
      → Leaves actor cmd now problem w w'
  other-Leaves actor cmd now (HandleError.rejected code) w w' h same = cc
  other-Leaves actor cmd now (HandleError.rejected_unrecorded code) w w' h same = cc
  other-Leaves actor cmd now _ w w' h same = same

  kept-Recorded :
      (actor : ActorRef) (cmd : C) (now : Time) (problem other : HandleError) (w w' : World L P)
      → is_rejected other ≡ false
      → some other ≡ some problem
      → k.log w'.ledger ≡ k.log w.ledger
      → k.IsGood w'.ledger
      → Recorded actor cmd now problem w w'
  kept-Recorded actor cmd now problem other w w' h e same g =
      let is_other : problem ≡ other = ground arith in
      rw is_other (record {
        leaves = other-Leaves actor cmd now other w w' h same;
        spares = λ stream ne. ap (of_stream stream) same;
        good = g;
      })

  ends-Recorded :
      (actor : ActorRef) (cmd : C) (now : Time) (w : World L P) (problem : HandleError)
      (out : Handled o)
      → k.IsGood w.ledger
      → Ends o k actor cmd now w out
      → out.0.1 ≡ some problem
      → problem ≢ HandleError.projection_failed
      → Recorded actor cmd now problem w out.1
  ends-Recorded actor cmd now w problem out g (Ends.rejects answer code a b) e ne =
      record_rejection-Recorded answer actor cmd now code w problem g e
  ends-Recorded actor cmd now w problem out g (Ends.stops other h) e ne =
      kept-Recorded actor cmd now problem other w w h e refl g
  ends-Recorded actor cmd now w problem out g (Ends.finds prev) e ne = absurd (ground arith)
  ends-Recorded actor cmd now w problem out g (Ends.idles agg version ctx loads built quiet) e ne =
      absurd (ground arith)
  ends-Recorded actor cmd now w problem out g
        (Ends.commits agg version ctx events _ loads built accepts some_event c) e ne =
      committed out c e
    where
      committed :
          (out : Handled o)
          → Commits o k actor cmd now (fill o actor now ctx) version events w out
          → out.0.1 ≡ some problem
          → Recorded actor cmd now problem w out.1
      committed out (Commits.aborts other w' fails h) e =
          kept-Recorded actor cmd now problem other w w' fails e h.log h.good
      committed out (Commits.replays prev w' h) e = absurd (ground arith)
      committed out (Commits.writes range next writes) e =
          let p = publish_written-Publishes o k cmd range events (record w { ledger = next }) in
          absurd (elim p.error [ inl fine ↦ ground arith | inr late ↦ ne (ground arith) ])

  -- A command that is refused or fails, at any step but the last, leaves every stream as it was but
  -- "rejected". If the answer is a recorded rejection, one record was appended to the log, on that
  -- stream, by the actor of the command, with the body of the rejection that names the command,
  -- its stream, the code and the actor; if it is an unrecorded one, that rejection could
  -- not be encoded or the ledger refused it. With every error but a recorded rejection the log is as
  -- it was.
  pub handle-Recorded :
      (actor : ActorRef) (cmd : C) (now : Time) (w : World L P) (problem : HandleError)
      → k.IsGood w.ledger
      → (handle o actor cmd now w).0.1 ≡ some problem
      → problem ≢ HandleError.projection_failed
      → Recorded actor cmd now problem w (handle o actor cmd now w).1
  handle-Recorded actor cmd now w problem g =
      ends-Recorded actor cmd now w problem (handle o actor cmd now w) g
        (handle-Ends o k actor cmd now w g)
