-- ===== src/Probe/CompactSize.antt =====
-- readCompactSize of internal/probe/coinbase.go: Bitcoin's variable-length counts.
use stratum_stats.Base.{
  ℕ, zero, suc, ◌^◌, ◌<◌, ◌≤◌, ◌≡◌, refl, ap, subst, Bool-cases, inl, inr, Bytes, [], ◌∷◌, ◌++◌,
  take, drop, length, length-append, All, IsByte, ok, err, leb, leb→le, ltb, ◌==◌, arith,
  if◌then◌else◌, take-append-drop, length-take,
}
use stratum_stats.Probe.Reader.{
  CoinbaseError, missing_compact_size, truncated_uint16, truncated_uint32, truncated_uint64,
  non_canonical, Read, little_endian, to_little_endian, length-to_little_endian,
  little_endian-to_little_endian, to_little_endian-little_endian, little_endian-lt,
}

-- One of the cases 0xfd, 0xfe and 0xff: `width` bytes that hold at least `low`.
read_wide : ℕ → ℕ → CoinbaseError → Read ℕ
read_wide width low short r =
    if leb width (length r)
    then (if leb low (little_endian (take width r))
        then ok (little_endian (take width r), drop width r)
        else err non_canonical)
    else err short

unfoldable pub read_compact_size : Read ℕ
unfolding read_wide
read_compact_size [] = err missing_compact_size
read_compact_size (prefix ∷ r) =
    if prefix == 0xfd
    then read_wide 2 0xfd truncated_uint16 r
    else if prefix == 0xfe
    then read_wide 4 0x10000 truncated_uint32 r
    else if prefix == 0xff
    then read_wide 8 0x100000000 truncated_uint64 r
    else ok (prefix, r)

-- The shortest encoding of a number, by the format's definition.
unfoldable pub compact_size : ℕ → Bytes
compact_size n =
    if ltb n 0xfd
    then n ∷ []
    else if ltb n 0x10000
    then 0xfd ∷ to_little_endian 2 n
    else if ltb n 0x100000000
    then 0xfe ∷ to_little_endian 4 n
    else 0xff ∷ to_little_endian 8 n

take-append : (k : ℕ) (xs ys : Bytes) → length xs ≡ k → take k (xs ++ ys) ≡ xs
take-append zero [] ys h = refl
take-append zero (x ∷ xs) ys h = absurd (omega arith)
take-append (suc k) [] ys h = absurd (omega arith)
take-append (suc k) (x ∷ xs) ys h = ap (λ (l : Bytes). x ∷ l) (take-append k xs ys (omega arith))

drop-append : (k : ℕ) (xs ys : Bytes) → length xs ≡ k → drop k (xs ++ ys) ≡ ys
drop-append zero [] ys h = refl
drop-append zero (x ∷ xs) ys h = absurd (omega arith)
drop-append (suc k) [] ys h = absurd (omega arith)
drop-append (suc k) (x ∷ xs) ys h = drop-append k xs ys (omega arith)

read_wide-to_little_endian :
    (width low : ℕ) (short : CoinbaseError) (n : ℕ) (rest : Bytes)
    → low ≤ n
    → n < 256 ^ width
    → read_wide width low short (to_little_endian width n ++ rest) ≡ ok (n, rest)
unfolding read_wide
read_wide-to_little_endian width low short n rest h k =
    let size = length-to_little_endian width n in
    let enough : width ≤ length (to_little_endian width n ++ rest) =
      omega (arith, size, length-append (to_little_endian width n) rest) in
    rw
      (
        take-append width (to_little_endian width n) rest size,
        drop-append width (to_little_endian width n) rest size,
        little_endian-to_little_endian width n k,
      )
      (ground arith)

-- Reading the encoding of a 64-bit number gives the number, and leaves what follows it.
pub read-compact_size :
    (n : ℕ) (rest : Bytes) → n < 2 ^ 64 → read_compact_size (compact_size n ++ rest) ≡ ok (n, rest)
unfolding read_compact_size compact_size
read-compact_size n rest h = elim (Bool-cases (ltb n 0xfd)) [
  | inl e ↦ rw e (ground arith)
  | inr e ↦ elim (Bool-cases (ltb n 0x10000)) [
    | inl f ↦
        rw (e, f)
          (read_wide-to_little_endian 2 0xfd truncated_uint16 n rest (ground arith) (ground arith))
    | inr f ↦ elim (Bool-cases (ltb n 0x100000000)) [
      | inl g ↦
          rw (e, f, g)
            (read_wide-to_little_endian 4 0x10000 truncated_uint32 n rest (ground arith)
              (ground arith))
      | inr g ↦
          rw (e, f, g)
            (read_wide-to_little_endian 8 0x100000000 truncated_uint64 n rest (ground arith)
              (ground arith))
    ]
  ]
]

All-take : (k : ℕ) (xs : Bytes) → All IsByte xs → All IsByte (take k xs)
All-take zero xs h = tt
All-take (suc k) [] h = tt
All-take (suc k) (x ∷ xs) h = (h.0, All-take k xs h.1)

to_little_endian-take :
    (k : ℕ) (r : Bytes)
    → All IsByte r
    → k ≤ length r
    → (to_little_endian k (little_endian (take k r)) ≡ take k r)
      × (little_endian (take k r) < 256 ^ k)
to_little_endian-take k r b h =
    let size : length (take k r) ≡ k = omega (arith, length-take k r) in
    let bound = little_endian-lt (take k r) (All-take k r b) in
    (
      subst (λ (j : ℕ). to_little_endian j (little_endian (take k r)) ≡ take k r) size
          (to_little_endian-little_endian (take k r) (All-take k r b)),
      subst (λ (j : ℕ). little_endian (take k r) < 256 ^ j) size bound,
    )

read_wide-inv :
    (width low : ℕ) (short : CoinbaseError) (r : Bytes) (n : ℕ) (rest : Bytes)
    → All IsByte r
    → read_wide width low short r ≡ ok (n, rest)
    → (low ≤ n) × (n < 256 ^ width) × (r ≡ to_little_endian width n ++ rest)
unfolding read_wide
read_wide-inv width low short r n rest b h = elim (Bool-cases (leb width (length r))) [
  | inr e ↦ ground arith
  | inl e ↦
      let (same, bound) = to_little_endian-take width r b (leb→le width (length r) e) in
      let whole = take-append-drop width r in ground (arith, same, bound, whole)
]

-- What is read from a list of bytes is the encoding of the number that `compact_size` gives, with what follows it.
pub read_compact_size-inv :
    (r : Bytes) (n : ℕ) (rest : Bytes)
    → All IsByte r
    → read_compact_size r ≡ ok (n, rest)
    → r ≡ compact_size n ++ rest
unfolding read_compact_size compact_size
read_compact_size-inv [] n rest b h = cc
read_compact_size-inv (p ∷ r) n rest b h = ground (
  arith,
  read_wide-inv 2 0xfd truncated_uint16 r n rest b.1,
  read_wide-inv 4 0x10000 truncated_uint32 r n rest b.1,
  read_wide-inv 8 0x100000000 truncated_uint64 r n rest b.1,
)
