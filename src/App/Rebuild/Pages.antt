-- ===== src/App/Rebuild/Pages.antt =====
-- internal/app/rebuild.go: the pages of a replay, against one pass over the records.
use keelage.Prelude.{
  ℕ, zero, suc, ◌+◌, ◌-◌, ◌<◌, ◌≤◌, ◌≡◌, refl, sym, ap, ◌∙◌, Bool, true, false, ◌&&◌, ◌⊎◌, inl, inr,
  Option, none, some, Option-cases, List, [], ◌∷◌, ◌++◌, length, length-append, is_nil, ltb, leb,
  if◌then◌else◌, arith,
}
use keelage.Core.Envelope.{Envelope}
use keelage.Ledger.Reads.{page, drop}
use keelage.App.Options.{Codec}
use keelage.App.Rebuild.{
  page_size, Replayed, Handler, project_each, go_on, replay_batch, after_batch, replay_pages,
  rebuild,
}

-- The records are numbered from `k` on without a gap.
abbrev pub SeqFrom : ℕ → List Envelope → Type 0
SeqFrom k [] = Unit
SeqFrom k (e ∷ es) = (e.seq ≡ k) × SeqFrom (suc k) es

SeqFrom-drop : (k n m : ℕ) (es : List Envelope) → k + n ≡ m → SeqFrom k es → SeqFrom m (drop n es)
unfolding drop
SeqFrom-drop k zero m es at h = let same : k ≡ m = omega arith in rw (← same) h
SeqFrom-drop k (suc n) m [] at h = tt
SeqFrom-drop k (suc n) m (e ∷ es) at (here, h) = SeqFrom-drop (suc k) n m es (omega arith) h

SeqFrom-prefix : (k : ℕ) (xs ys : List Envelope) → SeqFrom k (xs ++ ys) → SeqFrom k xs
SeqFrom-prefix k [] ys h = tt
SeqFrom-prefix k (x ∷ xs) ys (here, h) = (here, SeqFrom-prefix (suc k) xs ys h)

drop-drop : (n m k : ℕ) (es : List Envelope) → n + m ≡ k → drop m (drop n es) ≡ drop k es
unfolding drop
drop-drop zero m k es at = let same : m ≡ k = omega arith in rw same refl
drop-drop (suc n) zero k [] at = let same : suc n ≡ k = omega arith in rw (← same) refl
drop-drop (suc n) (suc m) k [] at = let same : suc (n + suc m) ≡ k = omega arith in rw (← same) refl
drop-drop (suc n) m zero (e ∷ es) at = absurd (omega arith)
drop-drop (suc n) m (suc k) (e ∷ es) at = drop-drop n m k es (omega arith)

length-drop : (n : ℕ) (es : List Envelope) → length (drop n es) ≡ length es - n
unfolding drop
length-drop zero es = omega arith
length-drop (suc n) [] = omega arith
length-drop (suc n) (e ∷ es) = omega (arith, length-drop n es)

-- A page is the first records, up to the limit.
page-drop :
    (limit count rest : ℕ) (es : List Envelope)
    → count + rest ≡ limit
    → 0 < limit
    → page limit count es ++ drop rest es ≡ es
unfolding page drop
page-drop limit count zero [] at pos = refl
page-drop limit count (suc rest) [] at pos = refl
page-drop limit count zero (e ∷ es) at pos =
    let full : (ltb 0 limit && leb limit count) ≡ true = ground arith in rw full refl
page-drop limit count (suc rest) (e ∷ es) at pos =
    let room : (ltb 0 limit && leb limit count) ≡ false = ground arith in
    rw room (ap (λ es. e ∷ es) (page-drop limit (suc count) rest es (omega arith) pos))

page-length :
    (limit count rest : ℕ) (es : List Envelope)
    → count + rest ≡ limit
    → 0 < limit
    → (length (page limit count es) ≡ rest)
      ⊎ ((length (page limit count es) < rest) × (drop rest es ≡ []))
unfolding page drop
page-length limit count zero [] at pos = inl refl
page-length limit count (suc rest) [] at pos = inr (omega arith, refl)
page-length limit count zero (e ∷ es) at pos =
    let full : (ltb 0 limit && leb limit count) ≡ true = ground arith in rw full (inl refl)
page-length limit count (suc rest) (e ∷ es) at pos =
    let room : (ltb 0 limit && leb limit count) ≡ false = ground arith in
    rw room (elim (page-length limit (suc count) rest es (omega arith) pos) [
      | inl whole ↦ inl (omega arith)
      | inr (short, gone) ↦ inr (omega arith, gone)
    ])

module _ {P E : Type 0} (codec : Codec E) (handlers : List (Handler P E)) where
  -- One batch after another is the two together, unless the first fails.
  abbrev then_batch : Replayed P → List Envelope → Replayed P
  then_batch r ys = elim r.error [
    | some problem ↦ r
    | none ↦ replay_batch codec handlers r.seq r.views ys
  ]

  replay_batch-append :
      (seq : ℕ) (views : P) (xs ys : List Envelope)
      → replay_batch codec handlers seq views (xs ++ ys)
        ≡ then_batch (replay_batch codec handlers seq views xs) ys
  unfolding replay_batch
  replay_batch-append seq views [] ys = refl
  replay_batch-append seq views (e ∷ xs) ys = elim (Option-cases (codec.decode e.kind e.v e.body)) [
    | inl bad ↦ rw (replay_batch, bad) refl
    | inr (ev, good) ↦
        rw (replay_batch, good)
          (handled (project_each handlers views e ev)
            (λ next. replay_batch-append e.seq next xs ys))
  ]
    where
      handled :
          (r : Bool × P)
          → ((next : P)
              → replay_batch codec handlers e.seq next (xs ++ ys)
                ≡ then_batch (replay_batch codec handlers e.seq next xs) ys)
          → go_on codec handlers seq e.seq r
              (λ next. replay_batch codec handlers e.seq next (xs ++ ys))
            ≡ then_batch
                (go_on codec handlers seq e.seq r
                  (λ next. replay_batch codec handlers e.seq next xs))
                ys
      handled (true, next) h = h next
      handled (false, next) h = refl

  batch_good :
      (seq : ℕ) (views : P) (e : Envelope) (es : List Envelope) (ev : E)
      → codec.decode e.kind e.v e.body ≡ some ev
      → replay_batch codec handlers seq views (e ∷ es)
        ≡ go_on codec handlers seq e.seq
            (project_each handlers views e ev)
            (λ next. replay_batch codec handlers e.seq next es)
  unfolding replay_batch
  batch_good seq views e es ev good = rw (replay_batch, good) refl

  replay_batch-seq :
      (seq : ℕ) (views : P) (es : List Envelope)
      → SeqFrom (suc seq) es
      → (replay_batch codec handlers seq views es).error ≡ none
      → (replay_batch codec handlers seq views es).seq ≡ seq + length es
  unfolding replay_batch
  replay_batch-seq seq views [] s h = omega arith
  replay_batch-seq seq views (e ∷ es) (at, s) h =
      elim (Option-cases (codec.decode e.kind e.v e.body)) [
        | inl bad ↦ absurd (ground arith)
        | inr (ev, good) ↦
            let step = batch_good seq views e es ev good in
            ap (λ r. r.seq) step
            ∙ handled (project_each handlers views e ev)
                (λ next k.
                  replay_batch-seq e.seq next es
                    (let next_at : suc (suc seq) ≡ suc e.seq = omega arith in rw (← next_at) s) k)
                (ap (λ r. r.error) (sym step) ∙ h)
      ]
    where
      handled :
          (r : Bool × P)
          → ((next : P)
              → (replay_batch codec handlers e.seq next es).error ≡ none
              → (replay_batch codec handlers e.seq next es).seq ≡ e.seq + length es)
          → (go_on codec handlers seq e.seq r
              (λ next. replay_batch codec handlers e.seq next es)).error
            ≡ none
          → (go_on codec handlers seq e.seq r
              (λ next. replay_batch codec handlers e.seq next es)).seq
            ≡ seq + length (e ∷ es)
      handled (true, next) f h = let rest = f next h in omega arith
      handled (false, next) f h = absurd (ground arith)

  complete :
      (r : Replayed P) → r.error ≡ none → r ≡ record { seq = r.seq; error = none; views = r.views }
  complete r h = ap (λ e. record { seq = r.seq; error = e; views = r.views }) h

  -- One round of the pages, over a batch and the records that are left after it.
  round :
      (seq : ℕ) (views : P) (batch rest : List Envelope) (again : ℕ → P → Replayed P)
      → (length batch ≡ page_size) ⊎ ((length batch < page_size) × (rest ≡ []))
      → ((replay_batch codec handlers seq views batch).error ≡ none
          → length batch ≡ page_size
          → again
              (replay_batch codec handlers seq views batch).seq
              (replay_batch codec handlers seq views batch).views
            ≡ replay_batch codec handlers
                (replay_batch codec handlers seq views batch).seq
                (replay_batch codec handlers seq views batch).views
                rest)
      → (if is_nil batch
          then record { seq = seq; error = none; views = views }
          else after_batch codec handlers batch (replay_batch codec handlers seq views batch) again)
        ≡ then_batch (replay_batch codec handlers seq views batch) rest
  unfolding replay_batch
  round seq views [] rest again (inl full) f = absurd (omega arith)
  round seq views [] rest again (inr (short, gone)) f = rw gone refl
  round seq views (e ∷ es) rest again size f =
      let r = replay_batch codec handlers seq views (e ∷ es) in
      elim (Option-cases r.error) [
        | inr (problem, h) ↦ rw (after_batch, then_batch, h) refl
        | inl h ↦
            rw (after_batch, then_batch, h)
              (elim size [
                | inl full ↦
                    let no : ltb (length (e ∷ es)) page_size ≡ false = ground arith in
                    rw no (f h full)
                | inr (short, gone) ↦
                    let yes_short : ltb (length (e ∷ es)) page_size ≡ true = ground arith in
                    rw (yes_short, gone) (complete r h)
              ])
      ]

  -- `ReadAll` gives the page of the records that the ledger holds.
  abbrev pub ReadsPages : (ℕ → ℕ → Option (List Envelope)) → List Envelope → Type 0
  ReadsPages read_all all =
      (seq : ℕ) → read_all (seq + 1) page_size ≡ some (page page_size 0 (drop seq all))

  module _ (read_all : ℕ → ℕ → Option (List Envelope)) (all : List Envelope)
      (reads : ReadsPages read_all all) (s : SeqFrom 1 all) where
    batch_numbered : (seq : ℕ) → SeqFrom (suc seq) (page page_size 0 (drop seq all))
    batch_numbered seq =
        SeqFrom-prefix (suc seq) (page page_size 0 (drop seq all)) (drop page_size (drop seq all)) (
          rw (page-drop page_size 0 page_size (drop seq all) refl (omega arith))
            (SeqFrom-drop 1 seq (suc seq) all (omega arith) s))

    batch_fits : (seq : ℕ) → length (page page_size 0 (drop seq all)) ≤ length all - seq
    batch_fits seq =
        let parts = ap length (page-drop page_size 0 page_size (drop seq all) refl (omega arith)) in
        let joined =
          length-append (page page_size 0 (drop seq all)) (drop page_size (drop seq all)) in
        let left = length-drop seq all in omega arith

    -- From `seq` on, the pages give what one pass over the records gives.
    replay_pages-batch :
        (fuel seq : ℕ) (views : P)
        → seq ≤ length all
        → length all < seq + fuel
        → replay_pages codec handlers read_all fuel seq views
          ≡ replay_batch codec handlers seq views (drop seq all)
    unfolding replay_pages
    replay_pages-batch zero seq views low enough = absurd (omega arith)
    replay_pages-batch (suc fuel) seq views low enough =
        let batch = page page_size 0 (drop seq all) in
        let rest = drop page_size (drop seq all) in
        let whole = page-drop page_size 0 page_size (drop seq all) refl (omega arith) in
        let size = page-length page_size 0 page_size (drop seq all) refl (omega arith) in
        let fits = batch_fits seq in
        let r = replay_batch codec handlers seq views batch in
        rw (replay_pages, reads seq)
          (round seq views batch rest (replay_pages codec handlers read_all fuel) size (λ h full.
            let at = replay_batch-seq seq views batch (batch_numbered seq) h in
            let left : drop page_size (drop seq all) ≡ drop r.seq all =
              drop-drop seq page_size r.seq all (omega arith) in
            replay_pages-batch fuel r.seq r.views (omega arith) (omega arith)
            ∙ ap (replay_batch codec handlers r.seq r.views) (sym left)))
        ∙ sym (replay_batch-append seq views batch rest)
        ∙ ap (replay_batch codec handlers seq views) whole

    -- Where ReadAll gives the pages of records that are numbered from 1 without a gap, Rebuild ends
    -- within one round more than there are records, with what one pass over all of them gives.
    pub rebuild-batch :
        (fuel : ℕ) (views : P)
        → length all < fuel
        → rebuild codec handlers read_all fuel views ≡ replay_batch codec handlers 0 views all
    unfolding rebuild drop
    rebuild-batch fuel views enough = replay_pages-batch fuel 0 views (omega arith) (omega arith)
