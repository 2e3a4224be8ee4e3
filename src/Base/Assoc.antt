-- ===== src/Base/Assoc.antt =====
-- Go's maps as association lists: the newest binding of a key stands for it.
use Prim.Native.Nat.{ℕ}
use mathlib.Core.Path.{◌≡◌, refl, sym, subst}
use mathlib.Core.Logic.{◌↔◌}
use mathlib.Core.Bool.{Bool, true, false}
use mathlib.Core.Option.{Option, none, some}
use mathlib.Core.List.{List, [], ◌∷◌}
use native.Mathlib.Omega.{arith}
use stratum_stats.Base.Tests.{◌==◌, if◌then◌else◌, ==_iff}
use stratum_stats.Base.Text.{Bytes, eqb, eqb_iff}

pub record Eq {ℓ} (K : Type ℓ) : Type ℓ where
  pub same : K → K → Bool
  pub same_iff : (a b : K) → (same a b ≡ true) ↔ (a ≡ b)

instance abbrev pub bytes_eq : Eq Bytes
bytes_eq = record { same = eqb; same_iff = eqb_iff }

instance abbrev pub nat_eq : Eq ℕ
nat_eq = record { same = ◌==◌; same_iff = ==_iff }

-- What holds of every value of a map, and of a value that is found.
abbrev pub AllValues {ℓ κ μ} : {K : Type ℓ} {V : Type κ} → (V → Type μ) → List (K × V) → Type μ
AllValues P [] = Unit
AllValues P ((k, v) ∷ m) = P v × AllValues P m

-- The same, where it depends on the key.
abbrev pub AllEntries {ℓ κ μ} : {K : Type ℓ} {V : Type κ} → (K → V → Type μ) → List (K × V) → Type μ
AllEntries P [] = Unit
AllEntries P ((k, v) ∷ m) = P k v × AllEntries P m

abbrev pub IsFound {κ μ} : {V : Type κ} → (V → Type μ) → Option V → Type μ
IsFound P none = Unit
IsFound P (some v) = P v

module _ {ℓ κ} {K : Type ℓ} {V : Type κ} ⦃e : Eq K⦄ where
  -- m[k], with `none` for a missing key
  abbrev pub find : K → List (K × V) → Option V
  find k [] = none
  find k ((j, v) ∷ m) = if e.same j k then some v else find k m

  -- m[k] = v, in the place of the key's earlier binding
  abbrev pub insert : K → V → List (K × V) → List (K × V)
  insert k v [] = (k, v) ∷ []
  insert k v ((j, w) ∷ m) = if e.same j k then (j, v) ∷ m else (j, w) ∷ insert k v m

  -- delete(m, k)
  abbrev pub erase : K → List (K × V) → List (K × V)
  erase k [] = []
  erase k ((j, w) ∷ m) = let rest = erase k m in if e.same j k then rest else (j, w) ∷ rest

  pub find-insert :
      (k j : K) (v : V) (m : List (K × V))
      → find j (insert k v m) ≡ (if e.same k j then some v else find j m)
  find-insert k j v [] = refl
  find-insert k j v ((i, w) ∷ m) =
      ground (arith, find-insert k j v m, e.same_iff i k, e.same_iff i j, e.same_iff k j)

  pub find-erase :
      (k j : K) (m : List (K × V)) → find j (erase k m) ≡ (if e.same k j then none else find j m)
  find-erase k j [] = ground arith
  find-erase k j ((i, w) ∷ m) =
      ground (arith, find-erase k j m, e.same_iff i k, e.same_iff i j, e.same_iff k j)

  module _ {μ} (P : V → Type μ) where
    pub insert-AllValues :
        (k : K) (v : V) (m : List (K × V)) → P v → AllValues P m → AllValues P (insert k v m)
    insert-AllValues k v [] p h = (p, tt)
    insert-AllValues k v ((j, w) ∷ m) p h = go (e.same j k) (insert-AllValues k v m p h.1)
      where
        go :
            (b : Bool)
            → AllValues P (insert k v m)
            → AllValues P (if b then (j, v) ∷ m else (j, w) ∷ insert k v m)
        go true rest = (p, h.1)
        go false rest = (h.0, rest)

    pub find-AllValues : (k : K) (m : List (K × V)) → AllValues P m → IsFound P (find k m)
    find-AllValues k [] h = tt
    find-AllValues k ((j, w) ∷ m) h = go (e.same j k) (find-AllValues k m h.1)
      where
        go : (b : Bool) → IsFound P (find k m) → IsFound P (if b then some w else find k m)
        go true rest = h.0
        go false rest = rest

  module _ {μ} (P : K → V → Type μ) where
    pub insert-AllEntries :
        (k : K) (v : V) (m : List (K × V)) → P k v → AllEntries P m → AllEntries P (insert k v m)
    insert-AllEntries k v [] p h = (p, tt)
    insert-AllEntries k v ((j, w) ∷ m) p h = go (e.same j k) refl (insert-AllEntries k v m p h.1)
      where
        go :
            (b : Bool)
            → e.same j k ≡ b
            → AllEntries P (insert k v m)
            → AllEntries P (if b then (j, v) ∷ m else (j, w) ∷ insert k v m)
        go true same rest = (subst (λ x. P x v) (sym ((e.same_iff j k).0 same)) p, h.1)
        go false other rest = (h.0, rest)

    pub find-AllEntries : (k : K) (m : List (K × V)) → AllEntries P m → IsFound (P k) (find k m)
    find-AllEntries k [] h = tt
    find-AllEntries k ((j, w) ∷ m) h = go (e.same j k) refl (find-AllEntries k m h.1)
      where
        go :
            (b : Bool)
            → e.same j k ≡ b
            → IsFound (P k) (find k m)
            → IsFound (P k) (if b then some w else find k m)
        go true same rest = subst (λ x. P x w) ((e.same_iff j k).0 same) h.0
        go false other rest = rest
