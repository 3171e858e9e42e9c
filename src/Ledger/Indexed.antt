-- ===== src/Ledger/Indexed.antt =====
-- internal/adapter/memory/ledger.go: the indices `streams`, `idem` and `origins` of the ledger.
use mathlib.Core.List.{append-nil}
use keelage.Prelude.{
  ◌≡◌, refl, sym, inl, inr, Option-cases, Bool-cases, List, [], ◌∷◌, length, All, arith,
}
use keelage.Prelude.Text.{Text, is_empty, text_eq, text_eq_iff, text_eq_comm}
use keelage.Core.Envelope.{Envelope}
use keelage.Ledger.State.{Ledger, new_ledger}
use keelage.Ledger.Append.{store, store_all}
use keelage.Ledger.Log.{
  has_idem, has_origin, last_position, positions, positions-append, last_position-append,
}

-- The indices say of every stream and key where its records stand.
pub record IsIndexed (l : Ledger) : Type 0 where
  pub streams : (stream : Text) → l.streams stream ≡ positions stream 0 l.all
  pub idem : (key : Text) → l.idem key ≡ last_position (has_idem key) 0 l.all
  pub origins : (key : Text) → l.origins key ≡ last_position (has_origin key) 0 l.all

pub new_ledger-IsIndexed : IsIndexed new_ledger
unfolding positions last_position
new_ledger-IsIndexed = record { streams = λ s. refl; idem = λ k. refl; origins = λ k. refl }

module _ (l : Ledger) (e : Envelope) (i : IsIndexed l) where
  store-streams :
      (stream : Text)
      → (store e.stream l e).streams stream ≡ positions stream 0 (store e.stream l e).all
  unfolding store
  store-streams stream =
      rw
        (
          positions-append stream 0 (length l.all) l.all e (omega arith),
          text_eq_comm e.stream stream,
        )
        (elim (Bool-cases (text_eq stream e.stream)) [
          | inl h ↦
              let same : stream ≡ e.stream = (text_eq_iff stream e.stream).0 h in
              rw (h, ← same, i.streams stream) refl
          | inr h ↦ rw (h, i.streams stream) (sym (append-nil (positions stream 0 l.all)))
        ])

  store-idem :
      (key : Text)
      → (store e.stream l e).idem key ≡ last_position (has_idem key) 0 (store e.stream l e).all
  unfolding store
  store-idem key =
      rw (last_position-append (has_idem key) 0 (length l.all) l.all e (omega arith))
        (elim (Bool-cases (is_empty e.idem)) [
          | inl h ↦ rw (h, i.idem key) refl
          | inr h ↦ rw (h, i.idem key) refl
        ])

  store-origins :
      (key : Text)
      → (store e.stream l e).origins key ≡ last_position (has_origin key) 0 (store e.stream l e).all
  unfolding store
  store-origins key =
      rw (last_position-append (has_origin key) 0 (length l.all) l.all e (omega arith))
        (elim (Option-cases e.origin) [
          | inl h ↦ rw (h, i.origins key) refl
          | inr (o, h) ↦ rw (h, i.origins key) refl
        ])

  pub store-IsIndexed : IsIndexed (store e.stream l e)
  store-IsIndexed = record { streams = store-streams; idem = store-idem; origins = store-origins }

pub store_all-IsIndexed :
    (stream : Text) (l : Ledger) (out : List Envelope)
    → IsIndexed l
    → All (λ e. e.stream ≡ stream) out
    → IsIndexed (store_all stream l out)
unfolding store_all
store_all-IsIndexed stream l [] i h = i
store_all-IsIndexed stream l (e ∷ out) i (here, rest) =
    store_all-IsIndexed stream (store stream l e) out (rw (← here) (store-IsIndexed l e i)) rest
