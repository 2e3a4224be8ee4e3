-- ===== src/Store/Replace.antt =====
-- CompactBefore of internal/store/jsonl.go as a whole: the file that it leaves.
use stratum_stats.Base.{
  Bool-cases, ◌⊎◌, inl, inr, ◌+◌, ◌≤◌, ◌≡◌, refl, sym, subst, ap, ◌∙◌, Bool, true, false, Bytes,
  List, [], ◌∷◌, ◌++◌, Option, none, some, map, length, if◌then◌else◌, Outcome, ok, err, All, arith,
  >>=-eq-ok,
}
use stratum_stats.Model.{Time, Observation, CoinbaseOutput, CoinbaseEvidence, EndpointBlockSample}
use stratum_stats.Model.Redact.{
  stored_observation, redacted_outputs, redact_option, redact_observation, redact_evidence,
}
use stratum_stats.Store.{
  StoreError, scan_failed, Codec, Calls, discard, Directory, CompactionResult, zero_result,
  load_lines, load_since_reader, compact_lines, replace, compact, compact_before,
}
use stratum_stats.Store.Compaction.{
  IsFaithful, IsShort, retained_text, compact_lines-text, retained_text-Loads,
}

abbrev pub IsForeign : CoinbaseOutput → Type 0
IsForeign output = output.worker ≡ false

abbrev pub HidesEvidence : {F : Type 0} → Option (CoinbaseEvidence F) → Type 0
HidesEvidence none = true ≡ true
HidesEvidence (some e) = All IsForeign e.coinbase_outputs

-- No output of the worker stands in the outputs of the record or in the evidence of one of its samples.
abbrev pub HidesWorker : {F : Type 0} → Observation F → Type 0
HidesWorker {F} o =
    All IsForeign o.coinbase_outputs
    × All (λ (s : EndpointBlockSample F). HidesEvidence s.coinbase) o.endpoint_samples

module _ {F D : Type 0} (codec : Codec F D) where
  reader-ok :
      (contents : Bytes) (later : Time) (os : List (Observation F))
      → load_lines codec later (codec.scan contents).0 ≡ ok os
      → (codec.scan contents).1 ≡ true
      → load_since_reader codec contents later ≡ ok os
  unfolding load_since_reader
  reader-ok contents later os l d = rw (l, d) refl

  -- The file is as it was, and no temporary file is left, unless its removal fails.
  abbrev LeavesFile : Calls → Directory → Directory → Type 0
  LeavesFile calls d d' = (d'.file ≡ d.file) × ((d'.temporary ≡ none) ⊎ (calls.remove ≡ false))

  discard-LeavesFile :
      (calls : Calls) (d : Directory) (text : Bytes) → LeavesFile calls d (discard calls d text)
  unfolding discard
  discard-LeavesFile calls d text = elim (Bool-cases calls.remove) [
    | inl b ↦ (refl, inl (rw b refl))
    | inr b ↦ (refl, inr b)
  ]

  replace-keeps :
      (calls : Calls) (d : Directory) (result : CompactionResult) (scanned : Bool)
      (written : Outcome (StoreError D) Bytes)
      → result.compacted ≡ false
      → d.temporary ≡ none
      → (replace codec calls d result scanned written).1.compacted ≡ false
      → LeavesFile calls d (replace codec calls d result scanned written).0
  unfolding replace
  replace-keeps calls d result scanned (err e) c t h = discard-LeavesFile calls d calls.partial
  replace-keeps calls d result scanned (ok text) c t h =
      ground (arith, discard-LeavesFile calls d calls.partial, discard-LeavesFile calls d text)

  compact_lines-compacted :
      (cutoff : Time) (r : CompactionResult) (w : Bytes) (lines : List Bytes)
      → (compact_lines codec cutoff r w lines).0.compacted ≡ r.compacted
  unfolding compact_lines
  compact_lines-compacted cutoff r w [] = refl
  compact_lines-compacted cutoff r w (line ∷ lines) = grind (
    arith,
    compact_lines-compacted cutoff (record r { removed = r.removed + 1 }) w lines,
    λ (text : Bytes).
        compact_lines-compacted cutoff (record r { retained = r.retained + 1 }) (w ++ text) lines,
  )

  compact-keeps :
      (calls : Calls) (d : Directory) (cutoff : Time)
      → d.temporary ≡ none
      → (compact codec calls d cutoff).1.compacted ≡ false
      → LeavesFile calls d (compact codec calls d cutoff).0
  unfolding compact
  compact-keeps calls d cutoff t h = grind (
    arith,
    discard-LeavesFile calls d [],
    λ (contents : Bytes).
        replace-keeps calls d (compact_lines codec cutoff zero_result [] (codec.scan contents).0).0
          (codec.scan contents).1
          (compact_lines codec cutoff zero_result [] (codec.scan contents).0).1,
    λ (contents : Bytes). compact_lines-compacted cutoff zero_result [] (codec.scan contents).0,
  )

  -- Where `compact_before` does not report that the file was compacted, for whatever error or for none, the file is as
  -- it was; and no temporary file is left, provided that there was none before, unless the call that removes it fails.
  pub compact_before-keeps :
      (calls : Calls) (d : Directory) (retain_cutoff trigger_cutoff : Time)
      → d.temporary ≡ none
      → (compact_before codec calls d retain_cutoff trigger_cutoff).1.compacted ≡ false
      → let d' = (compact_before codec calls d retain_cutoff trigger_cutoff).0 in
        (d'.file ≡ d.file) × ((d'.temporary ≡ none) ⊎ (calls.remove ≡ false))
  unfolding compact_before
  compact_before-keeps calls d retain_cutoff trigger_cutoff t h =
      ground (arith, compact-keeps calls d retain_cutoff)

  replace-compacted :
      (calls : Calls) (d : Directory) (result : CompactionResult) (scanned : Bool)
      (written : Outcome (StoreError D) Bytes)
      → result.compacted ≡ false
      → (replace codec calls d result scanned written).1.compacted ≡ true
      → (w : Bytes) × (written ≡ ok w)
        × (scanned ≡ true)
        × ((replace codec calls d result scanned written).0.file ≡ some w)
        × ((replace codec calls d result scanned written).1.removed ≡ result.removed)
        × ((replace codec calls d result scanned written).1.retained ≡ result.retained)
  unfolding replace
  replace-compacted calls d result scanned (err e) c h = ground arith
  replace-compacted calls d result scanned (ok w) c h =
      (w, refl, ground arith, ground arith, ground arith, ground arith)

  redacted_outputs-IsForeign :
      (outputs : List CoinbaseOutput) → All IsForeign (redacted_outputs outputs)
  unfolding redacted_outputs
  redacted_outputs-IsForeign [] = tt
  redacted_outputs-IsForeign (o ∷ outputs) = elim (Bool-cases o.worker) [
    | inl b ↦ rw b (redacted_outputs-IsForeign outputs)
    | inr b ↦ rw b (refl, redacted_outputs-IsForeign outputs)
  ]

  evidence-HidesWorker : (e : Option (CoinbaseEvidence F)) → HidesEvidence (redact_option e)
  unfolding redact_evidence
  evidence-HidesWorker none = refl
  evidence-HidesWorker (some e) = redacted_outputs-IsForeign e.coinbase_outputs

  samples-HidesWorker :
      (ss : List (EndpointBlockSample F))
      → All
          (λ (s : EndpointBlockSample F). HidesEvidence s.coinbase)
          (map (λ (s : EndpointBlockSample F). record s { coinbase = redact_option s.coinbase }) ss)
  samples-HidesWorker [] = tt
  samples-HidesWorker (s ∷ ss) = (evidence-HidesWorker s.coinbase, samples-HidesWorker ss)

  stored-HidesWorker : (os : List (Observation F)) → All HidesWorker (map stored_observation os)
  unfolding stored_observation redact_observation
  stored-HidesWorker [] = tt
  stored-HidesWorker (o ∷ os) = (
    (redacted_outputs-IsForeign o.coinbase_outputs, samples-HidesWorker o.endpoint_samples),
    stored-HidesWorker os,
  )

  -- What `compact` comes to where it reports that it compacted: the file has the text of the loop.
  compact-compacted :
      (calls : Calls) (contents : Bytes) (temporary : Option Bytes) (cutoff : Time)
      → let d : Directory = record { file = some contents; temporary = temporary } in
        let (r, out) = compact_lines codec cutoff zero_result [] (codec.scan contents).0 in
        (compact codec calls d cutoff).1.compacted ≡ true
        → compact codec calls d cutoff ≡ replace codec calls d r (codec.scan contents).1 out
  unfolding compact
  compact-compacted calls contents temporary cutoff h = ground arith

  -- Where `compact` reports that it compacted a file that loads, the new file loads too, for every cutoff from the
  -- retention cutoff on, and gives the same observations, each as it is stored; none of these shows an output of the
  -- worker, in its own outputs or in the evidence of a sample; the records that are removed and those that are retained
  -- make up the lines of the old file. This holds of a scanner and a JSON library that are faithful, where the text of
  -- each record fits in the scanner's buffer.
  pub compact-load_since_reader :
      (calls : Calls) (contents : Bytes) (temporary : Option Bytes) (cutoff later : Time)
      (os : List (Observation F))
      → IsFaithful codec
      → cutoff ≤ later
      → All (IsShort codec) (codec.scan contents).0
      → load_since_reader codec contents later ≡ ok os
      → (compact codec calls
          (record { file = some contents; temporary = temporary })
          cutoff).1.compacted
        ≡ true
      → let (d', r, e) =
          compact codec calls (record { file = some contents; temporary = temporary }) cutoff in
        (w : Bytes) × (d'.file ≡ some w)
        × (load_since_reader codec w later ≡ ok (map stored_observation os))
        × All HidesWorker (map stored_observation os)
        × (r.removed + r.retained ≡ length (codec.scan contents).0)
  unfolding load_since_reader
  compact-load_since_reader calls contents temporary cutoff later os faithful le short loads h =
      let lines = (codec.scan contents).0 in
      let d : Directory = record { file = some contents; temporary = temporary } in
      let loop = compact_lines codec cutoff zero_result [] lines in
      let whole = compact-compacted calls contents temporary cutoff h in
      let (w, written, scanned, file, removed, retained) =
        replace-compacted calls d loop.0 (codec.scan contents).1 loop.1
          (compact_lines-compacted cutoff zero_result [] lines)
          (subst (λ m. m.1.compacted ≡ true) whole h) in
      let (os', loaded, same) =
        >>=-eq-ok (load_lines codec later lines)
          (λ found. if (codec.scan contents).1 then ok found else err scan_failed) loads in
      let ended : loop ≡ (loop.0, ok w) = ap (λ out. (loop.0, out)) written in
      let (text, count) = compact_lines-text codec cutoff zero_result loop.0 [] w lines ended in
      let (done, reloaded) =
        retained_text-Loads codec cutoff later zero_result loop.0 [] w lines os' faithful le short
          ended loaded in
      let equal : os' ≡ os = ground arith in
      (
        w,
        subst (λ m. m.0.file ≡ some w) (sym whole) file,
        subst (λ t. load_since_reader codec t later ≡ ok (map stored_observation os)) (sym text)
            (reader-ok (retained_text codec cutoff lines) later (map stored_observation os)
              (reloaded
                ∙ ap (λ (found : List (Observation F)). ok (map stored_observation found)) equal)
              done),
        stored-HidesWorker os,
        subst (λ m. m.1.removed + m.1.retained ≡ length lines) (sym whole)
            (omega (arith, removed, retained, count)),
      )
