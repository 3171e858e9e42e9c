-- ===== src/App/Pipeline/Loaded.antt =====
-- internal/app/pipeline.go: an aggregate that is loaded from its stream, and what a batch adds to it.
use keelage.Prelude.{
  ℕ, suc, ◌+◌, ◌≡◌, refl, ap, ◌∙◌, inl, inr, Option, some, Option-cases, List, [], ◌∷◌, ◌++◌,
  length, arith,
}
use keelage.Prelude.Text.{Text}
use keelage.Core.Actor.{ActorRef}
use keelage.Core.Context.{Time}
use keelage.Core.Envelope.{Envelope, EventMeta}
use keelage.Core.Event.{replay}
use keelage.Ledger.Copied.{Copied, Copied-nil, Copied-cons}
use keelage.Ledger.Port.{Numbered}
use keelage.App.Options.{Codec, Options}
use keelage.App.Pipeline.{load, make_batch, new_record}

-- What the codec is for: it reads back what it writes.
pub record IsCodec {E : Type 0} (codec : Codec E) : Type 0 where
  pub decodes :
      (ev : E) (body : Text)
      → codec.encode ev ≡ some body
      → codec.decode (codec.kind ev) (codec.version ev) body ≡ some ev

module _ {L P S C E : Type 0} (o : Options L P S C E) where
  pub load-append :
      (agg : S) (n : ℕ) (es out : List Envelope) (s : S) (m : ℕ)
      → load o agg n es ≡ some (s, m)
      → load o agg n (es ++ out) ≡ load o s m out
  unfolding load
  load-append agg n [] out s m h =
      let one : agg ≡ s = ground arith in let two : n ≡ m = ground arith in rw (one, two) refl
  load-append agg n (e ∷ es) out s m h = elim (Option-cases (o.codec.decode e.kind e.v e.body)) [
    | inl bad ↦ absurd (ground arith)
    | inr (ev, good) ↦ rw good (load-append (o.root.apply agg ev) e.ver es out s m (ground arith))
  ]

  -- The version of a loaded aggregate is the number of its records.
  pub load-version :
      (agg : S) (n : ℕ) (es : List Envelope) (s : S) (m : ℕ)
      → Numbered (suc n) es
      → load o agg n es ≡ some (s, m)
      → m ≡ n + length es
  unfolding load
  load-version agg n [] s m k h = ground arith
  load-version agg n (e ∷ es) s m (at, k) h =
      elim (Option-cases (o.codec.decode e.kind e.v e.body)) [
        | inl bad ↦ absurd (ground arith)
        | inr (ev, good) ↦
            let next : load o (o.root.apply agg ev) (suc n) es ≡ some (s, m) =
              rw (← at) (ground arith) in
            let rest = load-version (o.root.apply agg ev) (suc n) es s m k next in omega arith
      ]

  pub make_batch-cons :
      (now : Time) (actor : ActorRef) (meta : EventMeta) (idem : Text) (ev : E) (events : List E)
      (batch : List Envelope)
      → make_batch o now actor meta idem (ev ∷ events) ≡ some batch
      → (body : Text) × (rest : List Envelope) × (o.codec.encode ev ≡ some body)
        × (make_batch o now actor meta [] events ≡ some rest)
        × (batch
            ≡ new_record (o.codec.kind ev) (o.codec.version ev) now actor meta body idem ∷ rest)
  unfolding make_batch
  make_batch-cons now actor meta idem ev events batch h = elim (Option-cases (o.codec.encode ev)) [
    | inl bad ↦ absurd (ground arith)
    | inr (body, encodes) ↦ elim (Option-cases (make_batch o now actor meta [] events)) [
      | inl bad ↦ absurd (ground arith)
      | inr (rest, more) ↦ (body, rest, encodes, more, ground arith)
    ]
  ]

  load-next :
      (agg : S) (n m : ℕ) (t : Envelope) (later : List Envelope) (ev : E) (r : Option (S × ℕ))
      → o.codec.decode t.kind t.v t.body ≡ some ev
      → t.ver ≡ m
      → load o (o.root.apply agg ev) m later ≡ r
      → load o agg n (t ∷ later) ≡ r
  unfolding load
  load-next agg n m t later ev r good at h = rw (load, good, at) h

  -- The records of a batch load to the aggregate that applies its events.
  pub load-Copied :
      (law : IsCodec o.codec) (now : Time) (actor : ActorRef) (meta : EventMeta) (stream : Text)
      (agg : S) (n : ℕ) (idem : Text) (events : List E) (batch out : List Envelope)
      → make_batch o now actor meta idem events ≡ some batch
      → Copied stream (suc n) batch out
      → load o agg n out ≡ some (replay o.root.apply agg events, n + length events)
  unfolding load make_batch replay
  load-Copied law now actor meta stream agg n idem [] batch out h c =
      let none_in : batch ≡ [] = ground arith in
      let none_out : out ≡ [] = Copied-nil {stream = stream} {ver = suc n} out (rw (← none_in) c) in
      rw none_out (ap (λ k. some (agg, k)) (omega arith))
  load-Copied law now actor meta stream agg n idem (ev ∷ events) batch out h c =
      let (body, rest, encodes, more, whole) =
        make_batch-cons now actor meta idem ev events batch h in
      let (t, later, end, copies, copied) =
        Copied-cons {stream = stream} {ver = suc n}
          (new_record (o.codec.kind ev) (o.codec.version ev) now actor meta body idem) rest out
          (rw (← whole) c) in
      let decodes : o.codec.decode t.kind t.v t.body ≡ some ev =
        rw (copies.kind, copies.v, copies.body) (law.decodes ev body encodes) in
      let tail =
        load-Copied law now actor meta stream (o.root.apply agg ev) (suc n) [] events rest later
          more copied in
      let size : suc n + length events ≡ n + length (ev ∷ events) = omega arith in
      ap (load o agg n) end
      ∙ load-next agg n (suc n) t later ev _ decodes copies.at tail
      ∙ ap (λ k. some (replay o.root.apply (o.root.apply agg ev) events, k)) size
