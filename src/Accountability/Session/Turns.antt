-- ===== src/Accountability/Session/Turns.antt =====
-- internal/core/accountability/session.go: the lists of a session that grow with its turns.
use keelage.Prelude.{
  ℕ, suc, ◌+◌, ◌≡◌, refl, sym, ap, ◌∙◌, Bool, false, ◌||◌, inl, inr, List, [], ◌∷◌, ◌++◌, any,
  length, if◌then◌else◌, Bool-cases, arith,
}
use keelage.Prelude.Text.{Text, text_eq, text_eq_iff, text_eq_comm}
use keelage.Accountability.Session.State.{Turn, SessionJudgment}
use keelage.Accountability.Session.Decide.{contains_str, touch, is_judged, judgment_of}

-- The turns are numbered from `k` on, without a gap.
abbrev pub IsNumbered : ℕ → List Turn → Type 0
IsNumbered k [] = Unit
IsNumbered k (t ∷ ts) = (t.seq ≡ k) × IsNumbered (suc k) ts

-- The judgment candidates of the turns: one for each redirect and revert, in order.
unfoldable pub candidates : List Turn → List SessionJudgment
candidates [] = []
candidates (t ∷ ts) =
    let rest = candidates ts in if is_judged t.class then judgment_of t ∷ rest else rest

-- No file stands twice.
abbrev pub IsDistinct : List Text → Type 0
IsDistinct [] = Unit
IsDistinct (f ∷ fs) = (contains_str fs f ≡ false) × IsDistinct fs

-- Some turn touched the file.
abbrev pub touched_by : List Turn → Text → Bool
touched_by turns f = any (λ t. contains_str t.files f) turns

pub IsNumbered-append :
    (k : ℕ) (ts : List Turn) (t : Turn)
    → IsNumbered k ts
    → t.seq ≡ k + length ts
    → IsNumbered k (ts ++ (t ∷ []))
IsNumbered-append k [] t h e = (omega arith, tt)
IsNumbered-append k (u ∷ ts) t (p, h) e = (p, IsNumbered-append (suc k) ts t h (omega arith))

pub candidates-append :
    (ts : List Turn) (t : Turn)
    → candidates (ts ++ (t ∷ []))
      ≡ (if is_judged t.class then candidates ts ++ (judgment_of t ∷ []) else candidates ts)
unfolding candidates
candidates-append [] t = elim (Bool-cases (is_judged t.class)) [
  | inl judged ↦ rw judged refl
  | inr plain ↦ rw plain refl
]
candidates-append (u ∷ ts) t = rw (candidates-append ts t) (elim (Bool-cases (is_judged u.class)) [
  | inl first ↦ elim (Bool-cases (is_judged t.class)) [
    | inl second ↦ rw (first, second) refl
    | inr not_second ↦ rw (first, not_second) refl
  ]
  | inr not_first ↦ rw not_first refl
])

contains_str-append :
    (fs : List Text) (g f : Text)
    → contains_str (fs ++ (g ∷ [])) f ≡ contains_str fs f || text_eq g f
contains_str-append [] g f = ground arith
contains_str-append (h ∷ fs) g f = rw (contains_str-append fs g f) (ground arith)

-- The files that `touch` leaves are those before and those of the turn.
pub contains_str-touch :
    (touched files : List Text) (f : Text)
    → contains_str (touch touched files) f ≡ contains_str touched f || contains_str files f
unfolding touch
contains_str-touch touched [] f = ground arith
contains_str-touch touched (g ∷ files) f = elim (Bool-cases (contains_str touched g)) [
  | inl old ↦
      let already : contains_str touched f || contains_str files f
          ≡ contains_str touched f || (text_eq g f || contains_str files f) =
        elim (Bool-cases (text_eq g f)) [
          | inl same ↦
              rw (same, sym (ap (contains_str touched) ((text_eq_iff g f).0 same)) ∙ old) refl
          | inr other ↦ rw other refl
        ] in
      rw old (contains_str-touch touched files f ∙ already)
  | inr new ↦ rw new (
      contains_str-touch (touched ++ (g ∷ [])) files f
      ∙ rw (contains_str-append touched g f) (ground arith))
]

IsDistinct-append :
    (fs : List Text) (f : Text)
    → IsDistinct fs
    → contains_str fs f ≡ false
    → IsDistinct (fs ++ (f ∷ []))
IsDistinct-append [] f d n = (refl, tt)
IsDistinct-append (g ∷ fs) f (h, d) n = (
  contains_str-append fs f g ∙ rw (h, text_eq_comm f g) (ground arith),
  IsDistinct-append fs f d (ground arith),
)

pub touch-IsDistinct :
    (touched files : List Text) → IsDistinct touched → IsDistinct (touch touched files)
unfolding touch
touch-IsDistinct touched [] d = d
touch-IsDistinct touched (g ∷ files) d = elim (Bool-cases (contains_str touched g)) [
  | inl old ↦ rw old (touch-IsDistinct touched files d)
  | inr new ↦
      rw new (touch-IsDistinct (touched ++ (g ∷ [])) files (IsDistinct-append touched g d new))
]

pub touched_by-append :
    (ts : List Turn) (t : Turn) (f : Text)
    → touched_by (ts ++ (t ∷ [])) f ≡ touched_by ts f || contains_str t.files f
touched_by-append [] t f = ground arith
touched_by-append (u ∷ ts) t f = rw (touched_by-append ts t f) (ground arith)
