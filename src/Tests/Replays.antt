-- ===== src/Tests/Replays.antt =====
-- A replay of a memory ledger with two records, and a codec whose kind has three versions.
use keelage.Prelude.{ℕ, ◌+◌, ◌-◌, ◌≡◌, refl, ap, true, inr, Option, none, some, [], ◌∷◌, arith}
use keelage.Prelude.Int.{pos}
use keelage.Prelude.Text.{Text, codes, text_eq}
use keelage.Core.Envelope.{Envelope}
use keelage.Core.Codec.{Events, Json, Registry, decode, encode}
use keelage.Core.Codec.Laws.{IsJson, IsDecoded, decode-IsDecoded, decode-encode}
use keelage.Ledger.Reads.{page, drop, read_all}
use keelage.Ledger.State.{Ledger, new_ledger}
use keelage.App.Options.{Codec}
use keelage.App.Rebuild.{page_size, Handler, replay_batch, rebuild}
use keelage.App.Rebuild.Pages.{ReadsPages, rebuild-batch}
use keelage.Tests.Ledgers.{event}

abbrev first : Envelope
first = record event { stream = codes "gate/1"; ver = 1; seq = 1 }

abbrev second : Envelope
second = record event { stream = codes "gate/2"; ver = 1; seq = 2 }

abbrev two_records : Ledger
two_records = record new_ledger { all = first ∷ second ∷ [] }

-- Every record is an event, and the read model counts them.
abbrev seq_codec : Codec Text
seq_codec = record {
  kind = λ ev. [];
  version = λ ev. pos 1;
  encode = λ ev. some ev;
  decode = λ kind v body. some body;
  encode_rejected = λ ev. none;
}

abbrev counter : Handler ℕ Text
counter count e ev = (true, count + 1)

reads :
    ReadsPages seq_codec
      (counter ∷ [])
      (λ from limit. some (read_all two_records from limit))
      (first ∷ second ∷ [])
unfolding read_all
reads seq =
    let same : seq + 1 - 1 ≡ seq = omega arith in
    ap (λ n. some (page page_size 0 (drop n (first ∷ second ∷ [])))) same

rebuild-batch_example :
    rebuild seq_codec (counter ∷ []) (λ from limit. some (read_all two_records from limit)) 3 0
    ≡ replay_batch seq_codec (counter ∷ []) 0 0 (first ∷ second ∷ [])
unfolding read_all drop
rebuild-batch_example =
    rebuild-batch seq_codec (counter ∷ []) (λ from limit. some (read_all two_records from limit))
      (first ∷ second ∷ []) reads (refl, (refl, tt)) 3 0 (omega arith)

-- An event is its version, and an upcast counts it up.
abbrev versions : Events ℕ
versions = record { kind = λ v. codes "K"; version = λ v. v }

abbrev read_version : Text → Option ℕ
read_version [] = none
read_version (v ∷ body) = some v

abbrev json : Json ℕ
json = record { marshal = λ v. some (v ∷ []); unmarshal = λ kind v body. read_version body }

json-IsJson : IsJson versions json
json-IsJson = record { reads = reads_back }
  where
    reads_back : (v : ℕ) (body : Text) → some (v ∷ []) ≡ some body → read_version body ≡ some v
    reads_back v body h = let whole : body ≡ v ∷ [] = ground arith in rw whole refl

abbrev registry : Registry ℕ
registry = record {
  types = λ kind v. true;
  latest = λ kind. 3;
  upcasters = λ kind v. some (λ e. e + 1);
}

climbs : decode versions json registry (codes "K") (pos 1) (1 ∷ []) ≡ inr 3
unfolding decode text_eq
climbs = refl

decode-IsDecoded_example :
    IsDecoded versions json registry
      (codes "K")
      (decode versions json registry (codes "K") (pos 1) (1 ∷ []))
decode-IsDecoded_example =
    decode-IsDecoded versions json registry (codes "K") (pos 1) (1 ∷ []) (λ e read. refl)

decode-encode_example : decode versions json registry (codes "K") (pos 3) (3 ∷ []) ≡ inr 3
unfolding encode
decode-encode_example =
    decode-encode versions json registry json-IsJson 3 (3 ∷ []) (omega arith) refl
