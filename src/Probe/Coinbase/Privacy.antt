-- ===== src/Probe/Coinbase/Privacy.antt =====
-- What the analysis retains of the outputs: never the probe's own payout script.
use mathlib.Core.List.Permᴰ
use stratum_stats.Base.{
  ℕ, ◌+◌, ◌<◌, ◌≡◌, refl, sym, subst, Post-both, ◌-◌, false, Bytes, eqb, eqb_iff, List, [], ◌∷◌,
  map, length, Option, none, some, find, insert, bytes_eq, ltb, ◌==◌, ok, All, Post, Post-ok, arith,
  Bool-cases, inl, inr, All-perm, All-take,
}
use stratum_stats.Model.{CoinbaseOutput, max_retained_coinbase_outputs}
use stratum_stats.Probe.Script.{retained_script_hex}
use stratum_stats.Probe.Coinbase.Defs.{
  CoinbaseSummary, Tally, max_uint64, add_destination, fresh_output, is_worker, settle, summarize,
  sort_outputs, analyze_coinbase,
}
use mathlib.Core.Path.{subst₂}
use stratum_stats.Probe.Coinbase.Tally.{
  IsOther, Balances, Balances-empty, open-Balances, settle-Balances,
}
use stratum_stats.Probe.Coinbase.Parse.{Summarizes, analyze_coinbase-Post}
use stratum_stats.Probe.Coinbase.Accounts.{Reorders, sort_outputs-perm}

module _ (sha256 : Bytes → Bytes) (worker_script worker_hash : Bytes) where
  -- Neither the worker's script, where one is given, nor one with the worker's digest.
  pub record IsForeign (script : Bytes) : Type 0 where
    pub not_script : 0 < length worker_script → eqb script worker_script ≡ false
    pub not_digest : length worker_hash ≡ 32 → eqb (sha256 script) worker_hash ≡ false

  -- An output that is retained for a script: it shows that script, and is not marked as the worker's.
  pub record Shows (script : Bytes) (o : CoinbaseOutput) : Type 0 where
    pub foreign : IsForeign script
    pub shown : o.script_pub_key ≡ (retained_script_hex script).0
    pub unmarked : o.worker ≡ false
    pub paid : 0 < o.value_sats

  -- The invariant of the loop. The value that is pending plays no part.
  abbrev AllShow : ℕ → Tally → Type 0
  AllShow pending t = All (λ d. Shows d.0 d.1) t.destinations

  IsForeign-of_test :
      (value : ℕ) (script : Bytes)
      → is_worker sha256 worker_script worker_hash value script ≡ false
      → 0 < value
      → IsForeign script
  unfolding is_worker
  IsForeign-of_test value script h p = ground arith

  insert-Shows :
      (script : Bytes) (o : CoinbaseOutput) (m : List (Bytes × CoinbaseOutput))
      → Shows script o
      → All (λ d. Shows d.0 d.1) m
      → All (λ d. Shows d.0 d.1) (insert script o m)
  insert-Shows script o [] s h = (s, tt)
  insert-Shows script o ((j, w) ∷ m) s h = elim (Bool-cases (eqb j script)) [
    | inl e ↦ rw e (subst (λ k. Shows k o) (sym ((eqb_iff j script).0 e)) s, h.1)
    | inr e ↦ rw e (h.0, insert-Shows script o m s h.1)
  ]

  find-Shows :
      (script : Bytes) (o : CoinbaseOutput) (m : List (Bytes × CoinbaseOutput))
      → All (λ d. Shows d.0 d.1) m
      → find script m ≡ some o
      → Shows script o
  find-Shows script o [] h e = cc
  find-Shows script o ((j, w) ∷ m) h e = elim (Bool-cases (eqb j script)) [
    | inl f ↦ let same : w ≡ o = ground arith in subst₂ Shows ((eqb_iff j script).0 f) same h.0
    | inr f ↦ find-Shows script o m h.1 (rw f at e)
  ]

  add_destination-AllShow :
      (script : Bytes) (value : ℕ) (t : Tally) (found : Option CoinbaseOutput)
      → find script t.destinations ≡ found
      → IsForeign script
      → 0 < value
      → AllShow value t
      → Post
          (AllShow 0)
          (λ _. Unit {0})
          (add_destination script value
            (fresh_output sha256 worker_script worker_hash value script)
            t
            found)
  unfolding add_destination fresh_output
  add_destination-AllShow script value t none e f p h =
      insert-Shows script (fresh_output sha256 worker_script worker_hash value script)
        t.destinations (record { foreign = f; shown = refl; unmarked = refl; paid = p }) h
  add_destination-AllShow script value t (some old) e f p h =
      elim (Bool-cases (ltb (max_uint64 - old.value_sats) value)) [
        | inl over ↦ rw over tt
        | inr room ↦
            let s = find-Shows script old t.destinations h e in
            rw room (
              insert-Shows script (record old { value_sats = old.value_sats + value })
                t.destinations
                (record {
                  foreign = f;
                  shown = s.shown;
                  unmarked = s.unmarked;
                  paid = omega (arith, s.paid);
                })
                h)
      ]

  settle-AllShow :
      (value : ℕ) (script : Bytes) (t : Tally)
      → AllShow value t
      → Post (AllShow 0) (λ _. Unit {0}) (settle sha256 worker_script worker_hash value script t)
  unfolding settle
  settle-AllShow value script t h =
      elim (Bool-cases (is_worker sha256 worker_script worker_hash value script)) [
        | inl w ↦ elim (Bool-cases (ltb (max_uint64 - t.worker_sats) value)) [
          | inl over ↦ rw (w, over) tt
          | inr room ↦ rw (w, room) h
        ]
        | inr w ↦ elim (Bool-cases (value == 0)) [
          | inl z ↦ rw (w, z) h
          | inr z ↦
              let positive : 0 < value = ground arith in
              rw (w, z)
                (add_destination-AllShow script value t (find script t.destinations) refl
                  (IsForeign-of_test value script w positive) positive h)
        ]
      ]

  abbrev Both : ℕ → Tally → Type 0
  Both pending t = Balances pending t × AllShow pending t

  settle-Both :
      (value : ℕ) (script : Bytes) (t : Tally)
      → Both value t
      → Post (Both 0) IsOther (settle sha256 worker_script worker_hash value script t)
  settle-Both value script t h =
      Post-both (Balances 0) (AllShow 0) IsOther (λ _. Unit {0}) _
        (settle-Balances sha256 worker_script worker_hash value script t h.0)
        (settle-AllShow value script t h.1)

  -- What is retained for some script that is not the worker's.
  abbrev pub IsRetainable : CoinbaseOutput → Type 0
  IsRetainable o = (script : Bytes) × Shows script o

  retainable :
      (m : List (Bytes × CoinbaseOutput))
      → All (λ d. Shows d.0 d.1) m
      → All IsRetainable (map (λ (d : Bytes × CoinbaseOutput). d.1) m)
  retainable [] h = tt
  retainable ((k, o) ∷ m) h = ((k, h.0), retainable m h.1)

  summarize-IsRetainable :
      (height count : ℕ) (t : Tally) (visited : List CoinbaseOutput)
      → All IsRetainable visited
      → All IsRetainable (summarize height count t visited).outputs
  unfolding summarize
  summarize-IsRetainable height count t visited h =
      let sorted = All-perm IsRetainable (Permᴰ.symm (sort_outputs-perm visited)) h in
      elim (Bool-cases (ltb max_retained_coinbase_outputs (length (sort_outputs visited)))) [
        | inl many ↦
            rw many
              (All-take IsRetainable max_retained_coinbase_outputs (sort_outputs visited) sorted)
        | inr few ↦ rw few sorted
      ]

  -- If the map of destinations is visited in some order of its entries, every retained output of a
  -- successful analysis pays more than nothing to some script that is
  -- neither the worker's script nor one with the worker's digest, shows the hex text retained for
  -- that script, and is not marked as the worker's.
  pub analyze_coinbase-IsRetainable :
      (visit : List CoinbaseOutput → List CoinbaseOutput)
      → Reorders visit
      → (raw : Bytes) (s : CoinbaseSummary)
      → analyze_coinbase sha256 worker_script worker_hash visit raw ≡ ok s
      → All IsRetainable s.outputs
  analyze_coinbase-IsRetainable visit reorders raw s e =
      let (height, count, t, b, same) =
        Post-ok (Summarizes Both visit) IsOther _
          (analyze_coinbase-Post sha256 worker_script worker_hash Both
            (λ u value h room. (open-Balances u value h.0 room, h.1)) settle-Both visit raw
            (Balances-empty, tt))
          e in
      let values = map (λ (d : Bytes × CoinbaseOutput). d.1) t.destinations in
      rw same (
        summarize-IsRetainable height count t (visit values)
          (All-perm IsRetainable (Permᴰ.symm (reorders values)) (retainable t.destinations b.1)))
