-- ===== src/Probe/Coinbase/Digest.antt =====
-- analyzeCoinbaseWithWorkerHash of internal/probe/coinbase.go, with the worker's script as against its digest.
use mathlib.Core.List.{append_assoc}
use stratum_stats.Base.{
  ℕ, zero, suc, ◌+◌, ◌-◌, ◌≡◌, refl, sym, ap, ◌∙◌, Bool, true, false, ◌&&◌, not, Bytes, eqb, List,
  [], ◌∷◌, ◌++◌, take, drop, length, leb, ◌==◌, if◌then◌else◌, Outcome, ok, err, ◌>>=◌, guard, Post,
  Post-bind, Post-guard, take-append-drop, arith, Bool-cases, inl, inr,
}
use stratum_stats.Model.{CoinbaseOutput}
use stratum_stats.Probe.Reader.{
  CoinbaseError, take_bytes, little_endian, input_script_too_large, output_script_too_large,
  truncated_uint16, truncated_uint32, truncated_uint64, non_canonical, value_overflow,
  input_count_implausible, output_count_implausible,
}
use stratum_stats.Probe.CompactSize.{read_compact_size}
use stratum_stats.Probe.Script.{decode_coinbase_height}
use stratum_stats.Probe.Coinbase.Defs.{
  Tally, max_uint64, empty_tally, read_sized, read_inputs, height_after, witness_flag, is_worker,
  settle, read_outputs, analyze_coinbase, fresh_output, finish_coinbase,
}

abbrev Any : {A : Type 0} → A → Type 0
Any a = Unit

-- The rest of a text behind a first part.
abbrev IsRest : Bytes → Bytes → Type 0
IsRest r rest = (front : Bytes) × (r ≡ front ++ rest)

IsRest-trans : (r s t : Bytes) → IsRest r s → IsRest s t → IsRest r t
IsRest-trans r s t (f, e) (g, d) =
    (f ++ g, e ∙ ap (λ (x : Bytes). f ++ x) d ∙ sym (append_assoc f g t))

-- What is read stands in front of the rest, behind the bytes of its size where it has one.
abbrev IsPiece : Bytes → Bytes × Bytes → Type 0
IsPiece r q = IsRest r (q.0 ++ q.1)

IsPiece-IsRest : (r x rest : Bytes) → IsPiece r (x, rest) → IsRest r rest
IsPiece-IsRest r x rest h = IsRest-trans r (x ++ rest) rest h (x, refl)

take_bytes-IsPiece : (n : ℕ) (r : Bytes) → Post (IsPiece r) Any (take_bytes n r)
unfolding take_bytes
take_bytes-IsPiece n r = elim (Bool-cases (leb n (length r))) [
  | inl b ↦ rw b ([], sym (take-append-drop n r))
  | inr b ↦ rw b tt
]

wide-IsRest :
    (p width low : ℕ) (short padded : CoinbaseError) (r : Bytes)
    → Post
        (λ (q : ℕ × Bytes). IsRest (p ∷ r) q.1)
        Any
        (if leb width (length r)
          then (if leb low (little_endian (take width r))
              then ok (little_endian (take width r), drop width r)
              else err padded)
          else err short)
wide-IsRest p width low short padded r = elim (Bool-cases (leb width (length r))) [
  | inr b ↦ rw b tt
  | inl b ↦ elim (Bool-cases (leb low (little_endian (take width r)))) [
    | inl c ↦
        rw (b, c) (p ∷ take width r, ap (λ (x : Bytes). p ∷ x) (sym (take-append-drop width r)))
    | inr c ↦ rw (b, c) tt
  ]
]

read_compact_size-IsRest : (r : Bytes) → Post (λ q. IsRest r q.1) Any (read_compact_size r)
unfolding read_compact_size
read_compact_size-IsRest [] = tt
read_compact_size-IsRest (p ∷ r) = elim (Bool-cases (p == 0xfd)) [
  | inl a ↦ rw a (wide-IsRest p 2 0xfd truncated_uint16 non_canonical r)
  | inr a ↦ elim (Bool-cases (p == 0xfe)) [
    | inl b ↦ rw (a, b) (wide-IsRest p 4 0x10000 truncated_uint32 non_canonical r)
    | inr b ↦ elim (Bool-cases (p == 0xff)) [
      | inl c ↦ rw (a, b, c) (wide-IsRest p 8 0x100000000 truncated_uint64 non_canonical r)
      | inr c ↦ rw (a, b, c) (p ∷ [], refl)
    ]
  ]
]

read_sized-IsPiece :
    (whole : ℕ) (e : CoinbaseError) (r : Bytes) → Post (IsPiece r) Any (read_sized whole e r)
unfolding read_sized
read_sized-IsPiece whole e r =
    Post-bind (λ q. IsRest r q.1) (IsPiece r) Any (read_compact_size r) _
      (read_compact_size-IsRest r)
      λ (size, r') rest.
        Post-guard (IsPiece r) Any (leb size whole) e _ tt
          λ _. weaken r' rest (take_bytes size r') (take_bytes-IsPiece size r')
  where
    weaken :
        (r' : Bytes)
        → IsRest r r'
        → (m : Outcome CoinbaseError (Bytes × Bytes)) → Post (IsPiece r') Any m
        → Post (IsPiece r) Any m
    weaken r' rest (ok q) h = IsRest-trans r r' (q.0 ++ q.1) rest h
    weaken r' rest (err e) h = tt

read_inputs-IsRest :
    (whole n : ℕ) (first : Bool) (height : ℕ) (r : Bytes)
    → Post (λ (q : ℕ × Bytes). IsRest r q.1) Any (read_inputs whole n first height r)
unfolding read_inputs
read_inputs-IsRest whole zero first height r = ([], refl)
read_inputs-IsRest whole (suc n) first height r =
    let R : ℕ × Bytes → Type 0 = λ q. IsRest r q.1 in
    Post-bind (IsPiece r) R Any (take_bytes 36 r) _ (take_bytes-IsPiece 36 r) λ (outpoint, r1) h1.
      Post-bind (IsPiece r1) R Any (read_sized whole input_script_too_large r1) _
        (read_sized-IsPiece whole input_script_too_large r1)
        λ (script, r2) h2.
          Post-bind (IsPiece r2) R Any (take_bytes 4 r2) _ (take_bytes-IsPiece 4 r2)
            λ (sequence, r3) h3.
              weaken r3
                (IsRest-trans r r1 r3 (IsPiece-IsRest r outpoint r1 h1) (
                  IsRest-trans r1 r2 r3 (IsPiece-IsRest r1 script r2 h2)
                    (IsPiece-IsRest r2 sequence r3 h3)))
                (read_inputs whole n false
                  (if first then height_after height (decode_coinbase_height script) else height)
                  r3)
                (read_inputs-IsRest whole n false
                  (if first then height_after height (decode_coinbase_height script) else height)
                  r3)
  where
    weaken :
        (r' : Bytes)
        → IsRest r r'
        → (m : Outcome CoinbaseError (ℕ × Bytes)) → Post (λ (q : ℕ × Bytes). IsRest r' q.1) Any m
        → Post (λ (q : ℕ × Bytes). IsRest r q.1) Any m
    weaken r' rest (ok q) h = IsRest-trans r r' q.1 rest h
    weaken r' rest (err e) h = tt

witness_flag-IsRest : (r : Bytes) → IsRest r (witness_flag r).1
unfolding witness_flag
witness_flag-IsRest [] = ([], refl)
witness_flag-IsRest (m ∷ []) = ([], refl)
witness_flag-IsRest (m ∷ f ∷ r) = elim (Bool-cases ((m == 0) && not (f == 0))) [
  | inl b ↦ rw b (m ∷ f ∷ [], refl)
  | inr b ↦ rw b ([], refl)
]

-- Two chains agree where their steps agree on what the first call may give.
bind-eq :
    {A B : Type 0} (P : A → Type 0) (m : Outcome CoinbaseError A)
    (f g : A → Outcome CoinbaseError B)
    → Post P Any m
    → ((a : A) → P a → f a ≡ g a)
    → (m >>= f) ≡ (m >>= g)
bind-eq P (ok a) f g h same = same a h
bind-eq P (err e) f g h same = refl

settled : {A : Type 0} (m : Outcome CoinbaseError A) → Post Any Any m
settled (ok a) = tt
settled (err e) = tt

module _ (sha256 : Bytes → Bytes) (worker : Bytes) where
  -- Among the pieces of a text only the worker's script has its digest.
  abbrev pub TellsWorker : Bytes → Type 0
  TellsWorker r =
      (front script back : Bytes)
      → r ≡ front ++ (script ++ back)
      → eqb (sha256 script) (sha256 worker) ≡ eqb script worker

  TellsWorker-rest : (r rest : Bytes) → TellsWorker r → IsRest r rest → TellsWorker rest
  TellsWorker-rest r rest tells h front script back e =
      let (more, d) = IsRest-trans r rest (script ++ back) h (front, e) in tells more script back d

  module _ (some_script : (length worker == 0) ≡ false) (size : length (sha256 worker) ≡ 32) where
    settle-agrees :
        (value : ℕ) (script : Bytes) (t : Tally)
        → eqb (sha256 script) (sha256 worker) ≡ eqb script worker
        → settle sha256 worker [] value script t ≡ settle sha256 [] (sha256 worker) value script t
    unfolding settle is_worker fresh_output
    settle-agrees value script t tells = rw (tells, size) (ground (arith, some_script))

    read_outputs-agrees :
        (whole n : ℕ) (t : Tally) (r : Bytes)
        → TellsWorker r
        → read_outputs sha256 worker [] whole n t r
          ≡ read_outputs sha256 [] (sha256 worker) whole n t r
    unfolding read_outputs
    read_outputs-agrees whole zero t r tells = refl
    read_outputs-agrees whole (suc n) t r tells =
        bind-eq (IsPiece r) (take_bytes 8 r) _ _ (take_bytes-IsPiece 8 r) λ (value_bytes, r1) h1.
          bind-eq Any
            (guard (leb (little_endian value_bytes) (max_uint64 - t.total_sats)) value_overflow) _ _
            (settled _)
            λ _ _.
              bind-eq (IsPiece r1) (read_sized whole output_script_too_large r1) _ _
                (read_sized-IsPiece whole output_script_too_large r1)
                λ (script, r2) h2.
                  let tells1 = TellsWorker-rest r r1 tells (IsPiece-IsRest r value_bytes r1 h1) in
                  let tells2 = TellsWorker-rest r1 r2 tells1 (IsPiece-IsRest r1 script r2 h2) in
                  ap (λ m. m >>= λ t'. read_outputs sha256 worker [] whole n t' r2)
                    (settle-agrees (little_endian value_bytes) script
                      (record t { total_sats = t.total_sats + little_endian value_bytes })
                      (tells1 h2.0 script r2 h2.1))
                  ∙ bind-eq Any
                      (settle sha256 [] (sha256 worker) (little_endian value_bytes) script
                        (record t { total_sats = t.total_sats + little_endian value_bytes }))
                      _ _ (settled _) λ t' _. read_outputs-agrees whole n t' r2 tells2

    -- A coinbase is analyzed alike by the worker's script and by the digest of it.
    pub analyze_coinbase-agrees :
        (visit : List CoinbaseOutput → List CoinbaseOutput) (raw : Bytes)
        → TellsWorker raw
        → analyze_coinbase sha256 worker [] visit raw
          ≡ analyze_coinbase sha256 [] (sha256 worker) visit raw
    unfolding analyze_coinbase
    analyze_coinbase-agrees visit raw tells =
        bind-eq (IsPiece raw) (take_bytes 4 raw) _ _ (take_bytes-IsPiece 4 raw) λ (version, r1) h1.
          let flagged = witness_flag r1 in
          let tells1 = TellsWorker-rest raw flagged.1 tells (
            IsRest-trans raw r1 flagged.1 (IsPiece-IsRest raw version r1 h1)
              (witness_flag-IsRest r1)) in
          bind-eq (λ q. IsRest flagged.1 q.1) (read_compact_size flagged.1) _ _
            (read_compact_size-IsRest flagged.1)
            λ (inputs, r2) h2.
              bind-eq Any (guard (not (inputs == 0) && leb inputs 1000) input_count_implausible) _ _
                (settled _)
                λ _ _.
                  bind-eq (λ q. IsRest r2 q.1) (read_inputs (length raw) inputs true 0 r2) _ _
                    (read_inputs-IsRest (length raw) inputs true 0 r2)
                    λ (height, r3) h3.
                      bind-eq (λ q. IsRest r3 q.1) (read_compact_size r3) _ _
                        (read_compact_size-IsRest r3)
                        λ (outputs, r4) h4.
                          bind-eq Any
                            (guard (not (outputs == 0) && leb outputs 10000)
                              output_count_implausible)
                            _ _ (settled _)
                            λ _ _.
                              ap
                                (λ m. m >>= λ (p : Tally × Bytes).
                                  finish_coinbase visit (length raw) inputs flagged.0 height outputs
                                    p.0 p.1)
                                (read_outputs-agrees (length raw) outputs empty_tally r4 (
                                  TellsWorker-rest flagged.1 r4 tells1 (
                                    IsRest-trans flagged.1 r2 r4 h2 (IsRest-trans r2 r3 r4 h3 h4))))
