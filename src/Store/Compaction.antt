-- ===== src/Store/Compaction.antt =====
-- The loop of compact of internal/store/jsonl.go, and what loading finds in the text that it writes.
use mathlib.Core.List.{append-nil, append_assoc}
use stratum_stats.Base.{
  is_empty, ap, Option, none, some, eq_ℕ, ◌+◌, ◌≤◌, ◌^◌, ◌≡◌, refl, sym, subst, ◌∙◌, Bool, true,
  false, ◌||◌, not, Bytes, List, [], ◌∷◌, ◌++◌, map, length, ltb, if◌then◌else◌, ok, err, ◌>>=◌,
  All, arith, >>=-eq-ok, Bool-cases, Outcome-cases, inl, inr, ◌⊎◌,
}
use stratum_stats.Model.{Time, Observation}
use stratum_stats.Model.Redact.{stored_observation, fill_legacy, or_else}
use stratum_stats.Store.{
  Codec, marshal_observation, unmarshal_observation, CompactionResult, is_loaded, load_lines,
  compact_lines,
}

module _ {F D : Type 0} (codec : Codec F D) where
  -- The texts that the loop encodes, in the order of their lines.
  unfoldable pub retained_text : Time → List Bytes → Bytes
  retained_text cutoff [] = []
  retained_text cutoff (line ∷ lines) =
      let rest = retained_text cutoff lines in
      elim (unmarshal_observation codec line) [
        | err e ↦ rest
        | ok o ↦
            if not (eq_ℕ o.version 9) || ltb o.observed_at cutoff
            then rest
            else elim (marshal_observation codec o) [ err e ↦ rest | ok text ↦ text ++ rest ]
      ]

  pub compact_lines-text :
      (cutoff : Time) (r r' : CompactionResult) (w w' : Bytes) (lines : List Bytes)
      → compact_lines codec cutoff r w lines ≡ (r', ok w')
      → (w' ≡ w ++ retained_text cutoff lines)
        × (r'.removed + r'.retained ≡ r.removed + r.retained + length lines)
  unfolding compact_lines retained_text
  compact_lines-text cutoff r r' w w' [] h = grind (arith, append-nil w)
  compact_lines-text cutoff r r' w w' (line ∷ lines) h = grind (
    arith,
    compact_lines-text cutoff (record r { removed = r.removed + 1 }) r' w w' lines,
    λ (text : Bytes).
        compact_lines-text cutoff (record r { retained = r.retained + 1 }) r' (w ++ text) w' lines,
    λ (text : Bytes). append_assoc w text (retained_text cutoff lines),
  )

  -- What bufio and encoding/json do with the text of a record whose fields came from a text, where the text of it fits in
  -- the scanner's buffer: its line is scanned, and decoded to the same fields; no field of an old version stands in it.
  pub record IsFaithful : Type 0 where
    pub scan_nil : codec.scan [] ≡ ([], true)
    pub scan_encode :
        (source : Bytes) (o : Observation F) (text rest : Bytes)
        → unmarshal_observation codec source ≡ ok o
        → codec.encode (stored_observation o) ≡ ok text
        → length text ≤ 2 ^ 21
        → (line : Bytes) × (codec.scan (text ++ rest)
            ≡ (line ∷ (codec.scan rest).0, (codec.scan rest).1))
          × (codec.decode line
              ≡ ok (record {
                observation = stored_observation o;
                legacy_block_id = [];
                legacy_fee_pct = none;
              }))

  block_id-fill : (id : Bytes) → (if is_empty id then [] else id) ≡ id
  block_id-fill [] = refl
  block_id-fill (c ∷ id) = refl

  or_else-none : (x : Option F) → or_else x none ≡ x
  or_else-none none = refl
  or_else-none (some x) = refl

  fill_legacy-nothing :
      (o : Observation F)
      → fill_legacy (record { observation = o; legacy_block_id = []; legacy_fee_pct = none }) ≡ o
  unfolding fill_legacy
  fill_legacy-nothing o = rw (block_id-fill o.block_id, or_else-none o.estimated_pool_fee_pct) refl

  scan-marshal :
      (source : Bytes) (o : Observation F) (text rest : Bytes)
      → IsFaithful
      → unmarshal_observation codec source ≡ ok o
      → marshal_observation codec o ≡ ok text
      → length text ≤ 2 ^ 21
      → (line : Bytes) × (codec.scan (text ++ rest)
          ≡ (line ∷ (codec.scan rest).0, (codec.scan rest).1))
        × (unmarshal_observation codec line ≡ ok (stored_observation o))
  unfolding marshal_observation unmarshal_observation
  scan-marshal source o text rest faithful d e short =
      let (line, scanned, decoded) = faithful.scan_encode source o text rest d e short in
      (line, scanned, rw decoded (ap ok (fill_legacy-nothing (stored_observation o))))

  -- The text of the record on a line, where it is a record, fits in the buffer.
  abbrev pub IsShort : Bytes → Type 0
  IsShort line =
      (o : Observation F) (text : Bytes)
      → unmarshal_observation codec line ≡ ok o
      → marshal_observation codec o ≡ ok text
      → length text ≤ 2 ^ 21

  stored_observation-loaded :
      (later : Time) (o : Observation F)
      → is_loaded codec later (stored_observation o) ≡ is_loaded codec later o
  unfolding is_loaded stored_observation
  stored_observation-loaded later o = refl

  dropped-not_loaded :
      (cutoff later : Time) (o : Observation F)
      → cutoff ≤ later
      → (not (eq_ℕ o.version 9) || ltb o.observed_at cutoff) ≡ true
      → is_loaded codec later o ≡ false
  unfolding is_loaded
  dropped-not_loaded cutoff later o le h = ground arith

  -- What loading the lines gives, loading what the loop wrote for them gives too, as it is stored.
  abbrev pub Loads : Time → Bytes → List (Observation F) → Type 0
  Loads later text os =
      ((codec.scan text).1 ≡ true)
      × (load_lines codec later (codec.scan text).0 ≡ ok (map stored_observation os))

  Loads-encode :
      (later : Time) (source : Bytes) (o : Observation F) (text rest : Bytes)
      (os : List (Observation F))
      → IsFaithful
      → unmarshal_observation codec source ≡ ok o
      → marshal_observation codec o ≡ ok text
      → length text ≤ 2 ^ 21
      → Loads later rest os
      → Loads later (text ++ rest) (if is_loaded codec later o then o ∷ os else os)
  unfolding load_lines
  Loads-encode later source o text rest os faithful d e short (done, loaded) =
      let (line, s, p) = scan-marshal source o text rest faithful d e short in
      let same = stored_observation-loaded later o in
      (
        rw s done,
        elim (Bool-cases (is_loaded codec later o)) [
          | inl b ↦ rw s (ground arith)
          | inr b ↦ rw s (ground arith)
        ],
      )

  -- the test of the loop of compact
  abbrev is_dropped : Time → Observation F → Bool
  is_dropped cutoff o = not (eq_ℕ o.version 9) || ltb o.observed_at cutoff

  module _ (cutoff later : Time) (r : CompactionResult) (w line : Bytes) (lines : List Bytes)
      (o : Observation F) (decoded : unmarshal_observation codec line ≡ ok o) where
    load_lines-cons : load_lines codec later (line ∷ lines) ≡ (
        load_lines codec later lines >>= λ rest.
        ok (if is_loaded codec later o then o ∷ rest else rest))
    unfolding load_lines
    load_lines-cons = ground arith

    compact_lines-dropped :
        is_dropped cutoff o ≡ true
        → (compact_lines codec cutoff r w (line ∷ lines)
            ≡ compact_lines codec cutoff (record r { removed = r.removed + 1 }) w lines)
          × (retained_text cutoff (line ∷ lines) ≡ retained_text cutoff lines)
    unfolding compact_lines retained_text
    compact_lines-dropped t = (ground arith, ground arith)

    compact_lines-kept :
        (text : Bytes)
        → is_dropped cutoff o ≡ false
        → marshal_observation codec o ≡ ok text
        → (compact_lines codec cutoff r w (line ∷ lines)
            ≡ compact_lines codec cutoff (record r { retained = r.retained + 1 }) (w ++ text) lines)
          × (retained_text cutoff (line ∷ lines) ≡ text ++ retained_text cutoff lines)
    unfolding compact_lines retained_text
    compact_lines-kept text t e = (ground arith, ground arith)

  compact_lines-decodes :
      (cutoff : Time) (r r' : CompactionResult) (w w' line : Bytes) (lines : List Bytes)
      → compact_lines codec cutoff r w (line ∷ lines) ≡ (r', ok w')
      → (o : Observation F) × (unmarshal_observation codec line ≡ ok o)
        × ((is_dropped cutoff o ≡ true)
            ⊎ ((is_dropped cutoff o ≡ false)
                × ((text : Bytes) × (marshal_observation codec o ≡ ok text))))
  unfolding compact_lines
  compact_lines-decodes cutoff r r' w w' line lines h =
      elim (Outcome-cases (unmarshal_observation codec line)) [
        | inr (e, p) ↦ ground arith
        | inl (o, p) ↦ elim (Bool-cases (is_dropped cutoff o)) [
          | inl t ↦ (o, p, inl t)
          | inr f ↦ elim (Outcome-cases (marshal_observation codec o)) [
            | inl (text, e) ↦ (o, p, inr (f, (text, e)))
            | inr (x, e) ↦ ground arith
          ]
        ]
      ]

  pub retained_text-Loads :
      (cutoff later : Time) (r r' : CompactionResult) (w w' : Bytes) (lines : List Bytes)
      (os : List (Observation F))
      → IsFaithful
      → cutoff ≤ later
      → All IsShort lines
      → compact_lines codec cutoff r w lines ≡ (r', ok w')
      → load_lines codec later lines ≡ ok os
      → Loads later (retained_text cutoff lines) os
  unfolding compact_lines retained_text load_lines
  retained_text-Loads cutoff later r r' w w' [] os faithful le short h l =
      grind (arith, faithful.scan_nil)
  retained_text-Loads cutoff later r r' w w' (line ∷ lines) os faithful le short h l =
      let (o, p, split) = compact_lines-decodes cutoff r r' w w' line lines h in
      let (rest, lr, same) =
        >>=-eq-ok (load_lines codec later lines)
          (λ more. ok (if is_loaded codec later o then o ∷ more else more))
          (sym (load_lines-cons cutoff later r w line lines o p) ∙ l) in
      let whole : (if is_loaded codec later o then o ∷ rest else rest) ≡ os = cc in
      subst
        (λ (loaded : List (Observation F)).
          Loads later (retained_text cutoff (line ∷ lines)) loaded)
        whole
        (elim split [
          | inl t ↦
              let (step, written) = compact_lines-dropped cutoff later r w line lines o p t in
              let none_more = dropped-not_loaded cutoff later o le t in
              rw (written, none_more)
                (retained_text-Loads cutoff later (record r { removed = r.removed + 1 }) r' w w'
                  lines rest faithful le short.1 (sym step ∙ h) lr)
          | inr (f, (text, e)) ↦
              let (step, written) = compact_lines-kept cutoff later r w line lines o p text f e in
              rw written (
                Loads-encode later line o text (retained_text cutoff lines) rest faithful p e
                  (short.0 o text p e)
                  (retained_text-Loads cutoff later (record r { retained = r.retained + 1 }) r'
                    (w ++ text) w' lines rest faithful le short.1 (sym step ∙ h) lr))
        ])
