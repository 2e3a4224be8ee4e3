-- ===== src/Report/Accumulator/Values.antt =====
-- What holds of every accumulator of internal/report/report.go holds of the one of an observation.
use stratum_stats.Base.{
  ◌==◌, Bool, true, false, not, Bytes, List, [], ◌∷◌, Option, none, some, length, if◌then◌else◌,
  find, insert, is_empty, bytes_eq, AllValues, IsFound, insert-AllValues, find-AllValues,
}
use stratum_stats.Model.{Pool, Endpoint, Observation}
use stratum_stats.Report.Keys.{endpoint_report_key, endpoint_address}
use stratum_stats.Report.Accumulator.{
  Accumulator, new_accumulator, add_endpoint_accumulators, accumulators_from,
  observation_accumulator, with_key, only_endpoint_key, no_endpoint,
}

module _ {F : Type 0} (P : Accumulator F → Type 0) where
  -- the accumulator that an observation is about has the property, if there is one
  abbrev pub HoldsAt : Option (Bytes × Accumulator F) → Type 0
  HoldsAt none = Unit
  HoldsAt (some (key, a)) = P a

  with_key-HoldsAt :
      (acc : List (Bytes × Accumulator F)) (key : Option Bytes)
      → AllValues P acc
      → HoldsAt (with_key acc key)
  with_key-HoldsAt acc none h = tt
  with_key-HoldsAt acc (some key) h = go (find key acc) (find-AllValues P key acc h)
    where
      go :
          (o : Option (Accumulator F))
          → IsFound P o
          → HoldsAt (elim o [ none ↦ none | some a ↦ some (key, a) ])
      go none p = tt
      go (some a) p = p

  pub observation_accumulator-HoldsAt :
      (acc : List (Bytes × Accumulator F)) (pools : List (Bytes × Pool)) (o : Observation F)
      → AllValues P acc
      → HoldsAt (observation_accumulator acc pools o)
  unfolding observation_accumulator
  observation_accumulator-HoldsAt acc pools o h =
      go (not (is_empty o.endpoint)) (find o.pool_id pools)
        (with_key-HoldsAt acc (some (endpoint_report_key o.pool_id o.endpoint o.tls)) h)
    where
      go :
          (b : Bool) (p : Option Pool)
          → HoldsAt (with_key acc (some (endpoint_report_key o.pool_id o.endpoint o.tls)))
          → HoldsAt (
              if b
              then with_key acc (some (endpoint_report_key o.pool_id o.endpoint o.tls))
              else elim p [ none ↦ none | some pool ↦ with_key acc (only_endpoint_key pool) ])
      go true p first = first
      go false none first = tt
      go false (some pool) first = with_key-HoldsAt acc (only_endpoint_key pool) h

  module _ (fresh : (pool : Pool) (e : Endpoint) → P (new_accumulator pool e)) where
    add_endpoint_accumulators-AllValues :
        (pool : Pool) (es : List Endpoint) (acc : List (Bytes × Accumulator F))
        → AllValues P acc
        → AllValues P (add_endpoint_accumulators acc pool es)
    unfolding add_endpoint_accumulators
    add_endpoint_accumulators-AllValues pool [] acc h = h
    add_endpoint_accumulators-AllValues pool (e ∷ es) acc h =
        add_endpoint_accumulators-AllValues pool es
          (insert (endpoint_report_key pool.id (endpoint_address e) e.tls) (new_accumulator pool e)
            acc)
          (insert-AllValues P _ _ acc (fresh pool e) h)

    pub accumulators_from-AllValues :
        (pools : List Pool) (acc : List (Bytes × Accumulator F))
        → AllValues P acc
        → AllValues P (accumulators_from acc pools)
    unfolding accumulators_from
    accumulators_from-AllValues [] acc h = h
    accumulators_from-AllValues (p ∷ ps) acc h =
        accumulators_from-AllValues ps
          (if length p.endpoints == 0
            then insert (endpoint_report_key p.id [] false) (new_accumulator p no_endpoint) acc
            else add_endpoint_accumulators acc p p.endpoints)
          (go (length p.endpoints == 0))
      where
        go :
            (b : Bool)
            → AllValues P (
                if b
                then insert (endpoint_report_key p.id [] false) (new_accumulator p no_endpoint) acc
                else add_endpoint_accumulators acc p p.endpoints)
        go true = insert-AllValues P _ _ acc (fresh p no_endpoint) h
        go false = add_endpoint_accumulators-AllValues p p.endpoints acc h
