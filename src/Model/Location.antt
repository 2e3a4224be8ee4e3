-- ===== src/Model/Location.antt =====
-- internal/model/location.go
use stratum_stats.Base.{
  ℕ, ◌+◌, Bool, false, ◌&&◌, ◌||◌, Bytes, bytes, eqb, is_empty, List, [], ◌∷◌, ◌++◌, map, Option,
  none, some, leb, ◌==◌, if◌then◌else◌,
}
use stratum_stats.Model.{Endpoint}
use stratum_stats.Model.Region.{ProductionRegion, production_region_for_vantage}

-- `case a, b, c:` of a switch on a string
is_case : Bytes → List Bytes → Bool
is_case value [] = false
is_case value (x ∷ xs) = eqb value x || is_case value xs

-- strings.ToLower over ASCII
to_lower : ℕ → ℕ
to_lower c = if leb 65 c && leb c 90 then c + 32 else c

is_space : ℕ → Bool
is_space c = (c == 32) || (leb 9 c && leb c 13)

-- the three `ReplaceAll` calls
separator : ℕ → ℕ
separator c = if (c == b'-') || ((c == b'_') || (c == b',')) then 32 else c

-- the words that whitespace parts, which `strings.Fields` gives and `strings.Join` joins with one
-- space; the surrounding `TrimSpace` removes what `Fields` drops
fields : Bytes → Bytes → List Bytes
unfolding is_space
fields word [] = if is_empty word then [] else word ∷ []
fields word (c ∷ rest) =
    let more = fields (word ++ c ∷ []) rest in
    let next = fields [] rest in
    if is_space c then (if is_empty word then next else word ∷ next) else more

join : List Bytes → Bytes
join [] = []
join (w ∷ []) = w
join (w ∷ v ∷ ws) = w ++ (32 ∷ join (v ∷ ws))

-- normalizeLocation
unfoldable pub normalize_location : Bytes → Bytes
unfolding to_lower separator fields join
normalize_location value = join (fields [] (map (λ c. separator (to_lower c)) value))

-- normalizeContinent
normalize_continent : Bytes → Bytes
unfolding is_case normalize_location
normalize_continent value =
    let label = normalize_location value in
    if eqb label (bytes "north america")
    then bytes "north-america"
    else if eqb label (bytes "south america")
    then bytes "south-america"
    else if is_case label
        (bytes "asia" ∷ bytes "europe" ∷ bytes "africa" ∷ bytes "oceania" ∷ bytes "antarctica" ∷ [])
    then label
    else []

-- continentForLabel
continent_for_label : Bytes → Bytes
unfolding is_case normalize_location
continent_for_label value =
    let label = normalize_location value in
    if is_case label (
      bytes "asia"
      ∷ bytes "asia pacific"
      ∷ bytes "singapore"
      ∷ bytes "tokyo japan"
      ∷ bytes "tel aviv israel"
      ∷ [])
    then bytes "asia"
    else if is_case label (
        bytes "europe"
        ∷ bytes "france"
        ∷ bytes "frankfurt germany"
        ∷ bytes "germany"
        ∷ bytes "london united kingdom"
        ∷ bytes "poland"
        ∷ bytes "united kingdom"
        ∷ [])
    then bytes "europe"
    else if is_case label (
        bytes "atlanta us"
        ∷ bytes "canada"
        ∷ bytes "north america"
        ∷ bytes "seattle us"
        ∷ bytes "united states"
        ∷ [])
    then bytes "north-america"
    else if is_case label (bytes "johannesburg south africa" ∷ [])
    then bytes "africa"
    else if is_case label (bytes "sao paulo brazil" ∷ [])
    then bytes "south-america"
    else []

-- EndpointContinent
unfoldable pub endpoint_continent : Endpoint → Bytes
unfolding normalize_continent continent_for_label
endpoint_continent e =
    if is_empty e.continent then continent_for_label e.region else normalize_continent e.continent

vantage_label_continent : Bytes → Bytes
unfolding is_case
vantage_label_continent label =
    if is_case label (
      bytes "us west"
      ∷ bytes "us central"
      ∷ bytes "us east"
      ∷ bytes "us"
      ∷ bytes "united states"
      ∷ bytes "north america"
      ∷ bytes "canada"
      ∷ [])
    then bytes "north-america"
    else if is_case label (bytes "europe" ∷ [])
    then bytes "europe"
    else if is_case label
        (bytes "asia" ∷ bytes "asia pacific" ∷ bytes "japan" ∷ bytes "singapore" ∷ [])
    then bytes "asia"
    else if is_case label (bytes "africa" ∷ [])
    then bytes "africa"
    else if is_case label (bytes "south america" ∷ [])
    then bytes "south-america"
    else []

or_label : Option ProductionRegion → Bytes → Bytes
or_label (some region) fallback = region.continent
or_label none fallback = fallback

-- VantageContinent
unfoldable pub vantage_continent : Bytes → Bytes
unfolding or_label vantage_label_continent normalize_location production_region_for_vantage
vantage_continent vantage =
    or_label (production_region_for_vantage vantage)
      (vantage_label_continent (normalize_location vantage))
