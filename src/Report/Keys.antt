-- ===== src/Report/Keys.antt =====
-- The keys of internal/report/report.go: texts whose parts a zero byte separates.
use stratum_stats.Base.{
  eq_ℕ, ◌≡◌, refl, Bool, true, false, ◌||◌, ◌==◌, if◌then◌else◌, Bytes, bytes, is_empty, [], ◌∷◌,
  ◌++◌, arith, decimal,
}
use stratum_stats.Model.{Endpoint, Observation}
use stratum_stats.Ingest.Target.{join_host_port}

-- endpointAddress
unfoldable pub endpoint_address : Endpoint → Bytes
endpoint_address e =
    if is_empty e.host || eq_ℕ e.port 0 then [] else join_host_port e.host (decimal e.port)

-- strconv.FormatBool
unfoldable pub format_bool : Bool → Bytes
format_bool true = bytes "true"
format_bool false = bytes "false"

-- endpointReportKey
unfoldable pub endpoint_report_key : Bytes → Bytes → Bool → Bytes
unfolding format_bool
endpoint_report_key pool_id address tls = pool_id ++ (0 ∷ (address ++ (0 ∷ format_bool tls)))

-- observationKey and blockWindowKey, which are the same text
unfoldable pub observation_key : {F : Type 0} → Observation F → Bytes
observation_key o = o.vantage ++ (0 ∷ o.block_id)

-- strings.Cut(key, "\x00"): what stands before and behind the first zero byte, if there is one
unfoldable pub cut : Bytes → Bytes × Bytes × Bool
cut [] = ([], [], false)
cut (c ∷ cs) =
    let (before, after, found) = cut cs in
    if c == 0 then ([], cs, true) else (c ∷ before, after, found)

-- observationKeyParts
unfoldable pub observation_key_parts : Bytes → Bytes × Bytes
unfolding cut
observation_key_parts key =
    let (vantage, block_id, found) = cut key in if found then (vantage, block_id) else ([], key)

-- whether a text has a zero byte
unfoldable pub has_zero : Bytes → Bool
has_zero [] = false
has_zero (c ∷ cs) = (c == 0) || has_zero cs

cut-append :
    (vantage rest : Bytes)
    → has_zero vantage ≡ false
    → cut (vantage ++ (0 ∷ rest)) ≡ (vantage, rest, true)
unfolding cut has_zero
cut-append [] rest h = refl
cut-append (c ∷ cs) rest h = ground (arith, cut-append cs rest)

-- The parts of an observation's key are its vantage and its block, if the vantage has no zero byte.
pub observation_key_parts-observation_key :
    {F : Type 0} (o : Observation F)
    → has_zero o.vantage ≡ false
    → observation_key_parts (observation_key o) ≡ (o.vantage, o.block_id)
unfolding observation_key_parts observation_key
observation_key_parts-observation_key o h = ground (arith, cut-append o.vantage o.block_id h)
