-- ===== src/Core/Hash3.antt =====
-- internal/core/hash3.go: the three layers of an anchor's hash and their comparison.
use keelage.Prelude.{Bool, true, not, ◌&&◌, ◌≡◌, ◌≢◌, ◌↔◌, [], arith, if◌then◌else◌}
use keelage.Prelude.Text.{Text, text_eq, text_eq_iff}

-- Hex digests.
pub record Hash3 : Type 0 where
  pub signature : Text
  pub body : Text
  pub file : Text

abbrev pub no_hash : Hash3
no_hash = record { signature = []; body = []; file = [] }

pub data HashChange : Type 0 where
  hash_none hash_file hash_body hash_signature : HashChange

-- `a.Cmp(b)`.
unfoldable pub cmp : Hash3 → Hash3 → HashChange
cmp a b =
    if not (text_eq a.signature b.signature)
    then hash_signature
    else if not (text_eq a.body b.body)
    then hash_body
    else if not (text_eq a.file b.file)
    then hash_file
    else hash_none

-- Go's `==` on the struct.
unfoldable pub hash_eq : Hash3 → Hash3 → Bool
hash_eq a b = text_eq a.signature b.signature && (text_eq a.body b.body && text_eq a.file b.file)

pub hash_eq_iff : (a b : Hash3) → (hash_eq a b ≡ true) ↔ (a ≡ b)
unfolding hash_eq
hash_eq_iff a b = ground (
  arith,
  text_eq_iff a.signature b.signature,
  text_eq_iff a.body b.body,
  text_eq_iff a.file b.file,
)

-- What each outcome of a comparison says: the layer named is the most significant that differs.
abbrev pub Differs : HashChange → Hash3 → Hash3 → Type 0
Differs hash_none a b = a ≡ b
Differs hash_file a b = (a.signature ≡ b.signature) × (a.body ≡ b.body) × (a.file ≢ b.file)
Differs hash_body a b = (a.signature ≡ b.signature) × (a.body ≢ b.body)
Differs hash_signature a b = a.signature ≢ b.signature

pub cmp-Differs : (a b : Hash3) → Differs (cmp a b) a b
unfolding cmp
cmp-Differs a b = ground (
  arith,
  text_eq_iff a.signature b.signature,
  text_eq_iff a.body b.body,
  text_eq_iff a.file b.file,
)
