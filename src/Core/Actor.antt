-- ===== src/Core/Actor.antt =====
-- internal/core/ids.go: identifiers and actors.
use keelage.Prelude.{Bool, true, false, ◌≡◌, arith, ◌⊎◌, ◌↔◌}
use keelage.Prelude.Text.{Text, is_empty}
use keelage.Core.Event.{Rejection, Result, ok, err, reject_if, ◌>>◌}

-- `ID`, a ULID as text.
abbrev pub Ident : Type 0
Ident = Text

-- `ID.IsZero`.
abbrev pub is_zero : Ident → Bool
is_zero = is_empty

-- `ActorKind` is a string; `other` holds any text but the two constants.
pub data ActorKind : Type 0 where
  human agent : ActorKind
  other : Text → ActorKind

pub record ActorRef : Type 0 where
  pub kind : ActorKind
  pub id : Ident
  pub key : Text
  pub owner : Ident

abbrev kind_is_human : ActorKind → Bool
kind_is_human human = true
kind_is_human agent = false
kind_is_human (other _) = false

abbrev kind_is_agent : ActorKind → Bool
kind_is_agent human = false
kind_is_agent agent = true
kind_is_agent (other _) = false

unfoldable pub is_human : ActorRef → Bool
is_human a = kind_is_human a.kind

unfoldable pub is_agent : ActorRef → Bool
is_agent a = kind_is_agent a.kind

-- The `switch` of `Validate`.
check_kind : ActorKind → Ident → Result (Unit {0})
check_kind human owner = ok tt
check_kind agent owner = reject_if (is_zero owner) Rejection.invalid
check_kind (other _) owner = err Rejection.invalid

-- `ActorRef.Validate`. Its callers report every error of it as "invalid".
unfoldable pub validate : ActorRef → Result (Unit {0})
unfolding check_kind
validate a = do check_kind a.kind a.owner; reject_if (is_zero a.id) Rejection.invalid

-- A valid actor has an id, and is a human, or an agent that a human answers for.
pub record IsAccountable (a : ActorRef) : Type 0 where
  pub named : is_zero a.id ≡ false
  pub known : (is_human a ≡ true) ⊎ ((is_agent a ≡ true) × (is_zero a.owner ≡ false))

pub validate-IsAccountable : (a : ActorRef) → validate a ≡ ok tt → IsAccountable a
unfolding validate is_human is_agent
validate-IsAccountable a h = record { named = ground arith; known = ground arith }

pub IsAccountable-validate : (a : ActorRef) → IsAccountable a → validate a ≡ ok tt
unfolding validate is_human is_agent
IsAccountable-validate a h = ground (arith, h.named, h.known)

-- `Validate` accepts exactly the accountable actors: those with an id that are a human, or an agent
-- with an owner.
pub validate_iff : (a : ActorRef) → (validate a ≡ ok tt) ↔ IsAccountable a
validate_iff a = (validate-IsAccountable a, IsAccountable-validate a)

-- No actor is both a human and an agent.
pub not_human_of_agent : (a : ActorRef) → is_agent a ≡ true → is_human a ≡ false
unfolding is_human is_agent
not_human_of_agent a h = ground arith
