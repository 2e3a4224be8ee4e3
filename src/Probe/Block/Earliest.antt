-- ===== src/Probe/Block/Earliest.antt =====
-- The arrivals of a block window: the earliest verified event of each connection, in whatever order
-- the events come.
use mathlib.Core.Bool.{◌||◌}
use mathlib.Core.List.{Memᴰ}
use mathlib.Core.Path.{ap₂}
use stratum_stats.Base.{
  ◌/◌, ◌-◌, suc, Float, map, length, Bool, true, false, Bool-cases, ◌≤◌, ◌<◌, ◌≡◌, refl, sym, ◌∙◌,
  ap, min, ◌&&◌, Bytes, eqb, eqb_iff, List, [], ◌∷◌, Option, none, some, ltb, ◌==◌, if◌then◌else◌,
  find, find-insert, bytes_eq, All, arith, Permᴰ, inl, inr, ◌⊎◌,
}
use stratum_stats.Model.{Time, Observation}
use stratum_stats.Probe.Block.{
  EndpointTarget, observe, offset_of, finish, sort_strings, Event, ActiveBlock, event_id,
  record_block_event, earliest,
}

-- The earlier of a time that may be missing and another.
abbrev pub sooner : Option Time → Time → Option Time
sooner none at = some at
sooner (some old) at = some (min old at)

module _ {F : Type 0} where
  -- The events of a block in turn.
  abbrev pub record_all : ActiveBlock F → List (Event F) → ActiveBlock F
  record_all b [] = b
  record_all b (e ∷ es) = record_all (record_block_event b e) es

  -- The earliest time of the verified events of `id`, and `t`.
  abbrev pub first_arrival : Bytes → Option Time → List (Event F) → Option Time
  first_arrival id t [] = t
  first_arrival id t (e ∷ es) =
      first_arrival id (if eqb (event_id e) id && e.verified then sooner t e.at else t) es

  find-record_block_event :
      (id : Bytes) (b : ActiveBlock F) (e : Event F)
      → find id (record_block_event b e).arrivals ≡ (
          if eqb (event_id e) id && e.verified
          then sooner (find id b.arrivals) e.at
          else find id b.arrivals)
  unfolding record_block_event
  find-record_block_event id b e =
      ground (arith, find-insert (event_id e) id e.at b.arrivals, eqb_iff (event_id e) id)

  -- What a window holds as the arrival of a connection is the earliest of what it held before and the
  -- times of the verified events recorded since.
  pub find-record_all :
      (id : Bytes) (b : ActiveBlock F) (es : List (Event F))
      → find id (record_all b es).arrivals ≡ first_arrival id (find id b.arrivals) es
  find-record_all id b [] = refl
  find-record_all id b (e ∷ es) =
      find-record_all id (record_block_event b e) es
      ∙ ap (λ t. first_arrival id t es) (find-record_block_event id b e)

  add_arrival : Bytes → Option Time → Event F → Option Time
  add_arrival id t e = if eqb (event_id e) id && e.verified then sooner t e.at else t

  first_arrival_swap :
      (id : Bytes) (t : Option Time) (d e : Event F)
      → add_arrival id (add_arrival id t d) e ≡ add_arrival id (add_arrival id t e) d
  unfolding add_arrival
  first_arrival_swap id none d e = ground arith
  first_arrival_swap id (some u) d e = ground arith

  first_arrival-perm :
      (id : Bytes) (t : Option Time) {es ds : List (Event F)}
      → Permᴰ es ds
      → first_arrival id t es ≡ first_arrival id t ds
  unfolding add_arrival
  first_arrival-perm id t Permᴰ.nil = refl
  first_arrival-perm id t (Permᴰ.cons {a = a} {b = b} {l₂ = ds} e p) =
      first_arrival-perm id (add_arrival id t a) p
      ∙ ap (λ (x : Event F). first_arrival id (add_arrival id t x) ds) e
  first_arrival-perm id t (Permᴰ.swap {a = a} {b = b} {l = l} e d) =
      ap (λ (u : Option Time). first_arrival id u l) (first_arrival_swap id t a b)
      ∙ (λ i. first_arrival id (add_arrival id (add_arrival id t (d i)) (e i)) l)
  first_arrival-perm id t (Permᴰ.trans p q) = first_arrival-perm id t p ∙ first_arrival-perm id t q

  -- The arrivals of a window do not depend on the order in which its events are recorded.
  pub find-record_all_perm :
      (id : Bytes) (b : ActiveBlock F) (es ds : List (Event F))
      → Permᴰ es ds
      → find id (record_all b es).arrivals ≡ find id (record_all b ds).arrivals
  find-record_all_perm id b es ds p =
      find-record_all id b es
      ∙ first_arrival-perm id (find id b.arrivals) p
      ∙ sym (find-record_all id b ds)

-- One round of the loop.
abbrev next_first : Time → Time → Time
next_first first at = if (first == 0) || ltb at first then at else first

next_first_facts :
    (first at : Time)
    → 0 < at
    → (0 < next_first first at)
      × (next_first first at ≤ at)
      × (0 < first → next_first first at ≤ first)
      × ((next_first first at ≡ at) ⊎ ((next_first first at ≡ first) × (0 < first)))
next_first_facts first at h = ground arith

earliest-le_first :
    (first : Time) (times : List Time)
    → All (λ t. 0 < t) times
    → 0 < first
    → earliest first times ≤ first
unfolding earliest
earliest-le_first first [] h p = omega arith
earliest-le_first first (at ∷ rest) h p =
    let (positive, below, under, one) = next_first_facts first at h.0 in
    omega (arith, earliest-le_first (next_first first at) rest h.1 positive, under p)

-- No time of the list is before the earliest.
earliest-le :
    (first : Time) (times : List Time)
    → All (λ t. 0 < t) times
    → All (λ t. earliest first times ≤ t) times
unfolding earliest
earliest-le first [] h = tt
earliest-le first (at ∷ rest) h =
    let (positive, below, under, one) = next_first_facts first at h.0 in
    (
      omega (arith, earliest-le_first (next_first first at) rest h.1 positive, below),
      earliest-le (next_first first at) rest h.1,
    )

-- The result is the time given, or one of the list.
earliest-mem :
    (first : Time) (times : List Time)
    → All (λ t. 0 < t) times
    → (earliest first times ≡ first) ⊎ Memᴰ (earliest first times) times
unfolding earliest
earliest-mem first [] h = inl refl
earliest-mem first (at ∷ rest) h =
    let (positive, below, under, one) = next_first_facts first at h.0 in
    elim (earliest-mem (next_first first at) rest h.1) [
      | inr m ↦ inr (Memᴰ.tail m)
      | inl e ↦ elim one [ inl same ↦ inr (Memᴰ.head (e ∙ same)) | inr (same, p) ↦ inl (e ∙ same) ]
    ]

earliest-IsLeast :
    (at : Time) (rest : List Time)
    → All (λ t. 0 < t) (at ∷ rest)
    → Memᴰ (earliest 0 (at ∷ rest)) (at ∷ rest) × All (λ t. earliest 0 (at ∷ rest) ≤ t) (at ∷ rest)
unfolding earliest
earliest-IsLeast at rest h = (
  elim (earliest-mem at rest h.1) [ inl e ↦ Memᴰ.head e | inr m ↦ Memᴰ.tail m ],
  earliest-le 0 (at ∷ rest) h,
)

abbrev pub times_of : {F : Type 0} → ActiveBlock F → List Time
times_of r = map (λ (a : Bytes × Time). a.1) r.arrivals

abbrev pub ids_of : {F : Type 0} → ActiveBlock F → List Bytes
ids_of r = map (λ (t : Bytes × EndpointTarget). t.0) r.eligible

module _ (fl : Float) where
  open fl use {F, of_ℕ, div}

  -- whether an observation arrived, and its offset
  abbrev pub timing : Observation F → Bool × F
  timing o = (o.arrived, o.offset_ms)

  -- The offset of an arrival from `first`: whole microseconds, in milliseconds; 0 for what did not arrive.
  abbrev pub timing_from : Time → Option Time → Bool × F
  timing_from first none = (false, of_ℕ 0)
  timing_from first (some at) = (true, div (of_ℕ ((at - first) / 1000)) (of_ℕ 1000))

  observe-timing :
      (vantage : Bytes) (first : Time) (r : ActiveBlock F) (id : Bytes)
      → timing (observe fl vantage first r id) ≡ timing_from first (find id r.arrivals)
  unfolding observe offset_of
  observe-timing vantage first r id = ground arith

  observe_all-timing :
      (vantage : Bytes) (first : Time) (r : ActiveBlock F) (ids : List Bytes)
      → map timing (map (observe fl vantage first r) ids)
        ≡ map (λ id. timing_from first (find id r.arrivals)) ids
  observe_all-timing vantage first r [] = refl
  observe_all-timing vantage first r (id ∷ ids) =
      ap₂ (λ x xs. x ∷ xs) (observe-timing vantage first r id)
        (observe_all-timing vantage first r ids)

  least_of :
      (times : List Time)
      → All (λ t. 0 < t) times
      → ltb (length times) 2 ≡ false
      → Memᴰ (earliest 0 times) times × All (λ t. earliest 0 times ≤ t) times
  least_of [] h two = ground (arith, two)
  least_of (at ∷ rest) h two = earliest-IsLeast at rest h

  length-times_of : (r : ActiveBlock F) → length (times_of r) ≡ length r.arrivals
  length-times_of r = go r.arrivals
    where
      go :
          (arrivals : List (Bytes × Time))
          → length (map (λ (a : Bytes × Time). a.1) arrivals) ≡ length arrivals
      go [] = refl
      go (a ∷ arrivals) = ap suc (go arrivals)

  -- A block that finishes with observations, all of whose arrivals have a time that is set, has one observation for each
  -- eligible connection, in the order of their sorted ids: it has arrived exactly if the connection has an arrival, and its
  -- offset is measured from one of the arrivals, which none is before.
  pub finish-IsLeast :
      (vantage : Bytes) (r : ActiveBlock F) (os : List (Observation F))
      → All (λ t. 0 < t) (times_of r)
      → finish fl vantage r ≡ some os
      → (first : Time) × Memᴰ first (times_of r)
        × All (λ t. first ≤ t) (times_of r)
        × (map timing os
            ≡ map (λ id. timing_from first (find id r.arrivals)) (sort_strings (ids_of r)))
  unfolding finish
  finish-IsLeast vantage r os h e = elim (Bool-cases (ltb (length r.arrivals) 2)) [
    | inl few ↦ ground (arith, few, e)
    | inr two ↦
        let first = earliest 0 (times_of r) in
        let (member, least) =
          least_of (times_of r) h (ap (λ n. ltb n 2) (length-times_of r) ∙ two) in
        let same : map (observe fl vantage first r) (sort_strings (ids_of r)) ≡ os = ground arith in
        (
          first,
          member,
          least,
          ap (map timing) (sym same) ∙ observe_all-timing vantage first r (sort_strings (ids_of r)),
        )
  ]
