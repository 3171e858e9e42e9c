-- ===== src/App/Rebuild.antt =====
-- internal/app/rebuild.go: `Rebuild` and `Replay`, which read the ledger page by page.
pub mod Pages
use mathlib.Core.List.{append-nil}
use keelage.Prelude.{
  ℕ, zero, suc, ◌+◌, ◌-◌, ◌<◌, ◌≤◌, ◌≡◌, refl, sym, ap, ◌∙◌, Bool, true, false, ◌&&◌, ◌⊎◌, inl, inr,
  Option, none, some, Bool-cases, Option-cases, List, [], ◌∷◌, ◌++◌, length, length-append, is_nil,
  ltb, leb, if◌then◌else◌, arith,
}
use keelage.Core.Envelope.{Envelope}
use keelage.Ledger.Reads.{page, drop}
use keelage.App.Options.{Codec}

-- The errors of `Replay`, one for each `return`, and the end of the fuel.
pub data ReplayError : Type 0 where
  unread undecoded projection_failed out_of_fuel : ReplayError

-- `const page`.
abbrev pub page_size : ℕ
page_size = 500

-- What `Replay` returns, the last seq and the error, with the read models.
pub record Replayed (P : Type 0) : Type 0 where
  pub seq : ℕ
  pub error : Option ReplayError
  pub views : P

-- A projector's `Handle`: whether it succeeds, and the read models after it.
abbrev pub Handler : Type 0 → Type 0 → Type 0
Handler P E = P → Envelope → E → Bool × P

-- The projectors in turn, up to the first that fails.
unfoldable pub project_each : {P E : Type 0} → List (Handler P E) → P → Envelope → E → Bool × P
project_each [] views e ev = (true, views)
project_each (handle ∷ handlers) views e ev =
    let (fine, next) = handle views e ev in
    let rest = project_each handlers next e ev in if fine then rest else (false, next)

module _ {P E : Type 0} (codec : Codec E) (handlers : List (Handler P E)) where
  -- What follows the handling of one record: the rest of the batch, unless a projector failed.
  abbrev pub go_on : ℕ → ℕ → Bool × P → (P → Replayed P) → Replayed P
  go_on seq next (true, views) rest = rest views
  go_on seq next (false, views) rest = record {
    seq = seq;
    error = some ReplayError.projection_failed;
    views = views;
  }

  -- The loop over the records of a batch.
  unfoldable pub replay_batch : ℕ → P → List Envelope → Replayed P
  replay_batch seq views [] = record { seq = seq; error = none; views = views }
  replay_batch seq views (e ∷ es) = elim (codec.decode e.kind e.v e.body) [
    | none ↦ record { seq = seq; error = some ReplayError.undecoded; views = views }
    | some ev ↦
        go_on seq e.seq (project_each handlers views e ev) (λ next. replay_batch e.seq next es)
  ]

  -- The rest of `Replay` after a batch.
  abbrev pub after_batch : List Envelope → Replayed P → (ℕ → P → Replayed P) → Replayed P
  after_batch batch r rest = elim r.error [
    | some problem ↦ r
    | none ↦ if ltb (length batch) page_size then r else rest r.seq r.views
  ]

  -- `ReadAll` of the ledger, from a seq on and up to a limit; `none` is an error.
  module _ (read_all : ℕ → ℕ → Option (List Envelope)) where
    -- `Replay`, with fuel for its rounds.
    unfoldable pub replay_pages : ℕ → ℕ → P → Replayed P
    replay_pages zero seq views = record {
      seq = seq;
      error = some ReplayError.out_of_fuel;
      views = views;
    }
    replay_pages (suc fuel) seq views = elim (read_all (seq + 1) page_size) [
      | none ↦ record { seq = seq; error = some ReplayError.unread; views = views }
      | some batch ↦
          if is_nil batch
          then record { seq = seq; error = none; views = views }
          else after_batch batch (replay_batch seq views batch) (replay_pages fuel)
    ]

    -- `Rebuild`.
    unfoldable pub rebuild : ℕ → P → Replayed P
    unfolding replay_pages
    rebuild fuel views = replay_pages fuel 0 views
