-- ===== src/Probe/Coinbase/Accounts.antt =====
-- The accounts of a decoded coinbase: nothing that it pays is lost or counted twice.
use mathlib.Core.List.Permᴰ
use stratum_stats.Base.{
  ◌⊎◌, true, ℕ, ◌+◌, ◌≤◌, ◌≡◌, ◌≢◌, subst, refl, ◌∙◌, Bytes, List, [], ◌∷◌, map, length, sum_by,
  sum_by-take-drop, length-take, ltb, le_of_not_ltb, ok, err, Post-ok, Post-err, arith, Permᴰ,
  sum_by-perm, sum_by-map, Bool-cases, inl, inr,
}
use stratum_stats.Model.{CoinbaseOutput, max_retained_coinbase_outputs}
use stratum_stats.Probe.Reader.{CoinbaseError, worker_overflow, destination_overflow}
use stratum_stats.Probe.Coinbase.Defs.{
  CoinbaseSummary, Tally, max_uint64, insert_output, sort_outputs, output_before, summarize,
  analyze_coinbase,
}
use stratum_stats.Probe.Coinbase.Tally.{
  IsOther, Balances, Balances-empty, open-Balances, settle-Balances, destination_sum,
}
use stratum_stats.Probe.Coinbase.Parse.{Summarizes, analyze_coinbase-Post}

abbrev pub output_sum : List CoinbaseOutput → ℕ
output_sum = sum_by (λ o. o.value_sats)

insert_output-perm :
    (x : CoinbaseOutput) (xs : List CoinbaseOutput) → Permᴰ (insert_output x xs) (x ∷ xs)
unfolding insert_output
insert_output-perm x [] = Permᴰ.refl (x ∷ [])
insert_output-perm x (y ∷ ys) = elim (Bool-cases (output_before y x)) [
  | inl e ↦ rw e (Permᴰ.trans (Permᴰ.cons refl (insert_output-perm x ys)) (Permᴰ.swap refl refl))
  | inr e ↦ rw e (Permᴰ.refl (x ∷ y ∷ ys))
]

pub sort_outputs-perm : (xs : List CoinbaseOutput) → Permᴰ (sort_outputs xs) xs
unfolding sort_outputs
sort_outputs-perm [] = Permᴰ.nil
sort_outputs-perm (x ∷ xs) =
    Permᴰ.trans (insert_output-perm x (sort_outputs xs)) (Permᴰ.cons refl (sort_outputs-perm xs))

-- A run visits each destination once, in some order.
abbrev pub Reorders : (List CoinbaseOutput → List CoinbaseOutput) → Type 0
Reorders visit = (xs : List CoinbaseOutput) → Permᴰ (visit xs) xs

-- The accounts of a result.
pub record IsBalanced (s : CoinbaseSummary) : Type 0 where
  pub balance : s.total_sats ≡ s.worker_sats + output_sum s.outputs + s.omitted_sats
  pub fits : s.total_sats ≤ max_uint64
  pub kept : length s.outputs ≤ max_retained_coinbase_outputs
  pub complete : (s.outputs_truncated ≡ true) ⊎ (s.omitted_sats ≡ 0)

summarize-IsBalanced :
    (height count : ℕ) (t : Tally) (visited : List CoinbaseOutput)
    → Balances 0 t
    → output_sum visited ≡ destination_sum t.destinations
    → IsBalanced (summarize height count t visited)
unfolding summarize
summarize-IsBalanced height count t visited b e =
    let sorted = sort_outputs visited in
    let total = sum_by-perm (λ (o : CoinbaseOutput). o.value_sats) (sort_outputs-perm visited) in
    let split =
      sum_by-take-drop (λ (o : CoinbaseOutput). o.value_sats) max_retained_coinbase_outputs
        sorted in
    let size = length-take max_retained_coinbase_outputs sorted in
    elim (Bool-cases (ltb max_retained_coinbase_outputs (length sorted))) [
      | inl many ↦ rw many (record {
        balance = omega (arith, total, split, e, b.balance, b.fits);
        fits = b.fits;
        kept = omega (arith, size);
        complete = inl refl;
      })
      | inr few ↦ rw few (record {
        balance = omega (arith, total, e, b.balance);
        fits = b.fits;
        kept = le_of_not_ltb max_retained_coinbase_outputs (length sorted) few;
        complete = inr refl;
      })
    ]

-- A successful analysis balances the accounts: the coinbase's total, which fits in a uint64, is what
-- the worker is paid, plus the retained outputs, plus the omitted ones; at most 64 outputs are
-- retained, and nothing is omitted unless the result says so. This holds whatever the digest
-- function, the worker's script and the order in which the map of destinations is visited.
pub analyze_coinbase-IsBalanced :
    (sha256 : Bytes → Bytes) (worker_script worker_hash : Bytes)
    (visit : List CoinbaseOutput → List CoinbaseOutput)
    → Reorders visit
    → (raw : Bytes) (s : CoinbaseSummary)
    → analyze_coinbase sha256 worker_script worker_hash visit raw ≡ ok s
    → IsBalanced s
analyze_coinbase-IsBalanced sha256 worker_script worker_hash visit reorders raw s e =
    let (height, count, t, b, same) =
      Post-ok (Summarizes Balances visit) IsOther _
        (analyze_coinbase-Post sha256 worker_script worker_hash Balances open-Balances
          (settle-Balances sha256 worker_script worker_hash) visit raw Balances-empty)
        e in
    let values = map (λ (d : Bytes × CoinbaseOutput). d.1) t.destinations in
    rw same (
      summarize-IsBalanced height count t (visit values) b (
        sum_by-perm (λ (o : CoinbaseOutput). o.value_sats) (reorders values)
        ∙ sum_by-map (λ (o : CoinbaseOutput). o.value_sats) (λ (d : Bytes × CoinbaseOutput). d.1)
            t.destinations))

-- The analysis never returns the overflow errors of the worker's sum and of a destination's sum, on
-- any input: the guard on the total stands before them and covers them.
pub analyze_coinbase-IsOther :
    (sha256 : Bytes → Bytes) (worker_script worker_hash : Bytes)
    (visit : List CoinbaseOutput → List CoinbaseOutput) (raw : Bytes) (x : CoinbaseError)
    → analyze_coinbase sha256 worker_script worker_hash visit raw ≡ err x
    → (x ≢ worker_overflow) × (x ≢ destination_overflow)
analyze_coinbase-IsOther sha256 worker_script worker_hash visit raw x e = other x (
    Post-err (Summarizes Balances visit) IsOther _
      (analyze_coinbase-Post sha256 worker_script worker_hash Balances open-Balances
        (settle-Balances sha256 worker_script worker_hash) visit raw Balances-empty)
      e)
  where
    other : (y : CoinbaseError) → IsOther y → (y ≢ worker_overflow) × (y ≢ destination_overflow)
    other y h = (λ p. subst IsOther p h, λ p. subst IsOther p h)
