-- ===== src/Examples/Files.antt =====
-- A file with an old and a new record in a toy format of one letter a line, and the theorems on its compaction.
use stratum_stats.Base.{
  All, ◌⊎◌, ℕ, ◌+◌, ◌≡◌, refl, pos, true, false, Bool, Bytes, List, [], ◌∷◌, ◌++◌, none, some, map,
  ok, err, Outcome, arith, Bool-cases, inl, inr, ◌==◌, if◌then◌else◌, length, subst,
}
use stratum_stats.Model.{Observation, zero_observation}
use stratum_stats.Model.Redact.{stored_observation, ObservationText, fill_legacy}
use stratum_stats.Store.{
  Codec, unmarshal_observation, marshal_observation, Calls, Directory, compact, compact_before,
  load_since_reader, is_loaded, oldest_observation,
}
use stratum_stats.Store.Compaction.{IsFaithful, IsShort}
use stratum_stats.Store.Replace.{HidesWorker, compact_before-keeps, compact-load_since_reader}

-- the record of a letter, by its time
abbrev record_at : ℕ → Observation ℕ
record_at t = record (zero_observation 0) { version = pos 9; observed_at = t }

-- a text without fields of old versions
abbrev text_of : Observation ℕ → ObservationText ℕ
text_of o = record { observation = o; legacy_block_id = []; legacy_fee_pct = none }

abbrev decode : Bytes → Outcome (Unit {0}) (ObservationText ℕ)
decode (c ∷ []) =
    if c == 120
    then ok (text_of (record_at 5))
    else if c == 121
    then ok (text_of (record_at 2))
    else err tt
decode _ = err tt

abbrev scan : Bytes → List Bytes × Bool
scan (a ∷ b ∷ rest) = ((a ∷ []) ∷ (scan rest).0, (scan rest).1)
scan _ = ([], true)

abbrev codec : Codec ℕ (Unit {0})
codec = record {
  scan = scan;
  decode = decode;
  encode = λ o. ok ((if o.observed_at == 5 then 120 else 121) ∷ 10 ∷ []);
}

unmarshal-cases :
    (P : Observation ℕ → Type 0) (source : Bytes) (o : Observation ℕ)
    → unmarshal_observation codec source ≡ ok o
    → P (record_at 5)
    → P (record_at 2)
    → P o
unfolding unmarshal_observation fill_legacy
unmarshal-cases P [] o h p q = cc
unmarshal-cases P (a ∷ b ∷ rest) o h p q = cc
unmarshal-cases P (c ∷ []) o h p q = elim (Bool-cases (c == 120)) [
  | inl e ↦ let same : record_at 5 ≡ o = ground arith in subst P same p
  | inr e ↦ elim (Bool-cases (c == 121)) [
    | inl f ↦ let same : record_at 2 ≡ o = ground arith in subst P same q
    | inr f ↦ ground arith
  ]
]

IsScanned : Observation ℕ → Type 0
IsScanned o =
    (text rest : Bytes)
    → codec.encode (stored_observation o) ≡ ok text
    → (line : Bytes) × (codec.scan (text ++ rest)
        ≡ (line ∷ (codec.scan rest).0, (codec.scan rest).1))
      × (codec.decode line ≡ ok (text_of (stored_observation o)))

letter-IsScanned :
    (c t : ℕ)
    → codec.encode (stored_observation (record_at t)) ≡ ok (c ∷ 10 ∷ [])
    → decode (c ∷ []) ≡ ok (text_of (stored_observation (record_at t)))
    → IsScanned (record_at t)
unfolding IsScanned
letter-IsScanned c t p d text rest e =
    let same : c ∷ 10 ∷ [] ≡ text = cc in
    (
      c ∷ [],
      subst
          (λ (x : Bytes).
            codec.scan (x ++ rest) ≡ ((c ∷ []) ∷ (codec.scan rest).0, (codec.scan rest).1))
          same refl,
      d,
    )

codec-IsFaithful : IsFaithful codec
unfolding stored_observation IsScanned
codec-IsFaithful = record {
  scan_nil = refl;
  scan_encode = λ source o text rest d e short.
      unmarshal-cases IsScanned source o d (letter-IsScanned 120 5 refl refl)
        (letter-IsScanned 121 2 refl refl) text rest e;
}

letter-IsShort : (line : Bytes) → IsShort codec line
unfolding marshal_observation
letter-IsShort line o text d e = ground arith

abbrev calls : Calls
calls = record {
  open_file = true;
  stat = true;
  create_temp = true;
  chmod = true;
  flush = true;
  sync = true;
  close = true;
  rename = true;
  open_directory = true;
  sync_directory = true;
  remove = true;
  partial = [];
}

abbrev contents : Bytes
contents = 120 ∷ 10 ∷ 121 ∷ 10 ∷ []

abbrev directory : Directory
directory = record { file = some contents; temporary = none }

load_contents : load_since_reader codec contents 4 ≡ ok (record_at 5 ∷ [])
unfolding load_since_reader is_loaded unmarshal_observation fill_legacy
load_contents = refl

compact_contents : (compact codec calls directory 3).1.compacted ≡ true
unfolding compact unmarshal_observation fill_legacy marshal_observation
compact_contents = refl

compact-load_since_reader_example :
    let (d', r, e) = compact codec calls directory 3 in
    (w : Bytes) × (d'.file ≡ some w)
    × (load_since_reader codec w 4 ≡ ok (map stored_observation (record_at 5 ∷ [])))
    × All HidesWorker (map stored_observation (record_at 5 ∷ []))
    × (r.removed + r.retained ≡ length (codec.scan contents).0)
compact-load_since_reader_example =
    compact-load_since_reader codec calls contents none 3 4 (record_at 5 ∷ []) codec-IsFaithful
      (omega arith) (letter-IsShort (120 ∷ []), (letter-IsShort (121 ∷ []), tt)) load_contents
      compact_contents

-- The rename fails.
abbrev failing : Calls
failing = record calls { rename = false }

compact_before-failing : (compact_before codec failing directory 3 4).1.compacted ≡ false
unfolding compact_before oldest_observation unmarshal_observation fill_legacy marshal_observation
compact_before-failing = refl

compact_before-keeps_example :
    let d' = (compact_before codec failing directory 3 4).0 in
    (d'.file ≡ directory.file) × ((d'.temporary ≡ none) ⊎ (failing.remove ≡ false))
compact_before-keeps_example =
    compact_before-keeps codec failing directory 3 4 refl compact_before-failing
