-- ===== src/Ingest/Replay.antt =====
-- ReplayGuard of internal/ingest/ingest.go.
use stratum_stats.Base.{
  Bool, true, false, not, Bytes, List, none, some, ltb, find, insert, erase, bytes_eq, keep,
}
use stratum_stats.Model.{Time}

-- the map `batches`, from a key to the time of its expiry
abbrev pub ReplayGuard : Type 0
ReplayGuard = List (Bytes × Time)

-- the loop of `claim` over the expired batches
unfoldable pub prune : Time → ReplayGuard → ReplayGuard
prune now = keep (λ b. not (ltb b.1 now))

unfoldable pub claim : Bytes → Time → Time → ReplayGuard → ReplayGuard × Bool
claim key now expires_at guard = elim (find key (prune now guard)) [
  | some expiry ↦ (prune now guard, false)
  | none ↦ (insert key expires_at (prune now guard), true)
]

-- the method `release`
unfoldable pub release_claim : Bytes → ReplayGuard → ReplayGuard
release_claim = erase
