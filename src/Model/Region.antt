-- ===== src/Model/Region.antt =====
-- internal/model/regions.go, over the registry that internal/model/regions.json embeds.
use stratum_stats.Base.{
  ℕ, Bool, true, false, ◌&&◌, Bytes, bytes, eqb, List, [], ◌∷◌, Option, none, some, ltb, keep,
  if◌then◌else◌,
}

pub record ProductionRegion : Type 0 where
  pub region : Bytes
  pub city : Bytes
  pub country : Bytes
  pub enabled : Bool
  pub gateway : Bool
  pub vantage : Bytes
  pub label : Bytes
  pub continent : Bytes
  pub order : ℕ

abbrev disabled : Bytes → Bytes → Bytes → Bool → ProductionRegion
disabled code city country gateway = record {
  region = code;
  city = city;
  country = country;
  enabled = false;
  gateway = gateway;
  vantage = [];
  label = [];
  continent = [];
  order = 0;
}

abbrev enabled_region : Bytes → Bytes → Bytes → Bytes → Bytes → Bytes → ℕ → ProductionRegion
enabled_region code city country vantage label continent order = record {
  region = code;
  city = city;
  country = country;
  enabled = true;
  gateway = true;
  vantage = vantage;
  label = label;
  continent = continent;
  order = order;
}

-- regions.json, which `loadProductionRegions` has decoded and checked at start
production_regions : List ProductionRegion
production_regions =
    disabled (bytes "ams") (bytes "Amsterdam") (bytes "Netherlands") true
    ∷ disabled (bytes "arn") (bytes "Stockholm") (bytes "Sweden") true
    ∷ disabled (bytes "bom") (bytes "Mumbai") (bytes "India") true
    ∷ disabled (bytes "cdg") (bytes "Paris") (bytes "France") true
    ∷ disabled (bytes "dfw") (bytes "Dallas") (bytes "United States") true
    ∷ enabled_region (bytes "ewr") (bytes "Secaucus") (bytes "United States") (bytes "us-east")
        (bytes "EWR") (bytes "north-america") 1
    ∷ enabled_region (bytes "fra") (bytes "Frankfurt") (bytes "Germany") (bytes "europe")
        (bytes "FRA") (bytes "europe") 2
    ∷ disabled (bytes "gru") (bytes "Sao Paulo") (bytes "Brazil") false
    ∷ disabled (bytes "iad") (bytes "Ashburn") (bytes "United States") true
    ∷ disabled (bytes "jnb") (bytes "Johannesburg") (bytes "South Africa") false
    ∷ enabled_region (bytes "lax") (bytes "Los Angeles") (bytes "United States") (bytes "us-west")
        (bytes "LAX") (bytes "north-america") 3
    ∷ disabled (bytes "lhr") (bytes "London") (bytes "United Kingdom") true
    ∷ enabled_region (bytes "nrt") (bytes "Tokyo") (bytes "Japan") (bytes "japan") (bytes "NRT")
        (bytes "asia") 4
    ∷ disabled (bytes "ord") (bytes "Chicago") (bytes "United States") true
    ∷ enabled_region (bytes "sin") (bytes "Singapore") (bytes "Singapore") (bytes "singapore")
        (bytes "SIN") (bytes "asia") 5
    ∷ disabled (bytes "sjc") (bytes "San Jose") (bytes "United States") true
    ∷ disabled (bytes "syd") (bytes "Sydney") (bytes "Australia") true
    ∷ disabled (bytes "yyz") (bytes "Toronto") (bytes "Canada") true
    ∷ []

insert_by_order : ProductionRegion → List ProductionRegion → List ProductionRegion
insert_by_order r [] = r ∷ []
insert_by_order r (s ∷ rest) =
    if ltb s.order r.order then s ∷ insert_by_order r rest else r ∷ s ∷ rest

sort_by_order : List ProductionRegion → List ProductionRegion
unfolding insert_by_order
sort_by_order [] = []
sort_by_order (r ∷ rest) = insert_by_order r (sort_by_order rest)

-- ProductionRegions
unfoldable pub enabled_regions : List ProductionRegion
unfolding production_regions sort_by_order
enabled_regions = sort_by_order (keep (λ r. r.enabled) production_regions)

region_for_vantage_in : Bytes → List ProductionRegion → Option ProductionRegion
region_for_vantage_in vantage [] = none
region_for_vantage_in vantage (r ∷ rest) =
    if r.enabled && eqb r.vantage vantage then some r else region_for_vantage_in vantage rest

-- ProductionRegionForVantage
unfoldable pub production_region_for_vantage : Bytes → Option ProductionRegion
unfolding region_for_vantage_in production_regions
production_region_for_vantage vantage = region_for_vantage_in vantage production_regions

vantage_in : Bytes → List ProductionRegion → Option Bytes
vantage_in code [] = none
vantage_in code (r ∷ rest) = if eqb r.region code then some r.vantage else vantage_in code rest

-- RegionVantages[code] of internal/ingest
unfoldable pub region_vantage : Bytes → Option Bytes
unfolding vantage_in enabled_regions
region_vantage code = vantage_in code enabled_regions
