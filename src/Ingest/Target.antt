-- ===== src/Ingest/Target.antt =====
-- The endpoints that a revision of the configuration makes eligible (internal/ingest/ingest.go).
use stratum_stats.Base.{
  Bool, true, false, ◌&&◌, ◌||◌, not, Bytes, eqb, eqb_iff, is_empty, List, [], ◌∷◌, ◌++◌, Option,
  none, some, ltb, if◌then◌else◌, find, bytes_eq, Eq, ◌≡◌, ◌↔◌, arith, ◌==◌, decimal,
}
use stratum_stats.Model.{Time, Endpoint, Pool, EndpointIdentity}
use stratum_stats.Model.Location.{endpoint_continent, vantage_continent}

abbrev same_bool : Bool → Bool → Bool
same_bool true b = b
same_bool false b = not b

-- `==` on `endpointIdentity`
abbrev pub same_identity : EndpointIdentity → EndpointIdentity → Bool
same_identity a b = eqb a.pool_id b.pool_id && (eqb a.endpoint b.endpoint && same_bool a.tls b.tls)

pub same_identity_iff : (a b : EndpointIdentity) → (same_identity a b ≡ true) ↔ (a ≡ b)
same_identity_iff a b = ground (arith, eqb_iff a.pool_id b.pool_id, eqb_iff a.endpoint b.endpoint)

instance abbrev pub identity_eq : Eq EndpointIdentity
identity_eq = record { same = same_identity; same_iff = same_identity_iff }

-- A set of identities, as the list of its elements.
abbrev pub contains : EndpointIdentity → List EndpointIdentity → Bool
contains i [] = false
contains i (j ∷ js) = same_identity j i || contains i js

abbrev pub add : EndpointIdentity → List EndpointIdentity → List EndpointIdentity
add i js = if contains i js then js else js ++ (i ∷ [])

contains_colon : Bytes → Bool
contains_colon [] = false
contains_colon (c ∷ cs) = (c == b':') || contains_colon cs

-- net.JoinHostPort
unfoldable pub join_host_port : Bytes → Bytes → Bytes
unfolding contains_colon
join_host_port host port =
    if contains_colon host then b'[' ∷ (host ++ (b']' ∷ b':' ∷ port)) else host ++ (b':' ∷ port)

unfoldable pub identity_of : Pool → Endpoint → EndpointIdentity
unfolding join_host_port decimal
identity_of pool e = record {
  pool_id = pool.id;
  endpoint = join_host_port e.host (decimal e.port);
  tls = e.tls;
}

-- the test of the inner loop: an endpoint without a continent is a target everywhere
unfoldable pub is_skipped : Bytes → Endpoint → Bool
is_skipped continent e =
    not (is_empty continent)
    && (not (is_empty (endpoint_continent e)) && not (eqb (endpoint_continent e) continent))

unfoldable pub add_endpoints :
    Bytes → Pool → List Endpoint → List EndpointIdentity → List EndpointIdentity
add_endpoints continent pool [] set = set
add_endpoints continent pool (e ∷ es) set =
    add_endpoints continent pool es
      (if is_skipped continent e then set else add (identity_of pool e) set)

unfoldable pub add_pools : Bytes → List Pool → List EndpointIdentity → List EndpointIdentity
add_pools continent [] set = set
add_pools continent (p ∷ ps) set =
    add_pools continent ps (add_endpoints continent p p.endpoints set)

unfoldable pub target_endpoints : List Pool → Bytes → List EndpointIdentity
target_endpoints configured continent = add_pools continent configured []

-- What the receiver knows of the pools.
pub record Configuration : Type 0 where
  pub pools : List Pool
  pub pool_revisions : List (Bytes × List Pool)
  pub revision_expiry : List (Bytes × Time)

-- `!expiresAt.IsZero() && !now.Before(expiresAt)`; a revision without an entry has the zero time
unfoldable pub is_expired : Option Time → Time → Bool
is_expired none now = false
is_expired (some expires_at) now = not (expires_at == 0) && not (ltb now expires_at)

-- allowedConfiguration: `none` is the error "unknown or expired configuration revision"
unfoldable pub allowed_configuration : Configuration → Bytes → Time → Option (List Pool)
unfolding is_expired
allowed_configuration c revision now = elim c.pool_revisions [
  | [] ↦ some c.pools
  | r ∷ rs ↦ elim (find revision c.pool_revisions) [
    | none ↦ none
    | some configured ↦
        if is_expired (find revision c.revision_expiry) now then none else some configured
  ]
]

unfoldable pub allowed_block_targets :
    Configuration → Bytes → Bytes → Bool → Time → Option (List EndpointIdentity)
allowed_block_targets c revision vantage filter_continents now =
    elim (allowed_configuration c revision now) [
      | none ↦ none
      | some configured ↦ some (
          target_endpoints configured (if filter_continents then vantage_continent vantage else []))
    ]
