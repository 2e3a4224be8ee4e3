-- ===== src/Ingest/Receiver/Fresh.antt =====
-- A request that passes every check is no older than the lifetime of its replay key.
use stratum_stats.Base.{
  ℤ, ◌≤◌, ◌≡◌, refl, sym, subst, true, not, Bytes, bytes, eqb, is_empty, Option, none, some, find,
  bytes_eq, Outcome, ok, err, Post, Post-bind, Post-guard, Post-ok, Float, arith, List,
}
use stratum_stats.Model.{Time, CoinbaseOutput}
use stratum_stats.Ingest.Envelope.{validate}
use stratum_stats.Ingest.Receiver.{
  AuthError, Request, Response, Settings, Libraries, Batch, json_required, gzip_required,
  invalid_authentication, stale_authentication, parse_int, unix, is_fresh, within_skew, stamp_time,
  expiry_of, is_json, require, or_respond, authenticate, prepare, method_not_allowed,
  ingestion_unavailable, refused, undecodable, unprocessable,
}

fresh-le-within_skew : (t : Option Time) (now : Time) → is_fresh t now ≡ true → now ≤ within_skew t
fresh-le-within_skew none now h = cc
fresh-le-within_skew (some u) now h = ground arith

fresh-le-expiry :
    (text : Bytes) (n : ℤ) (now : Time)
    → parse_int text ≡ some n
    → is_fresh (unix n) now ≡ true
    → now ≤ expiry_of text
unfolding expiry_of
fresh-le-expiry text n now p f =
    subst (λ o. now ≤ within_skew (stamp_time o)) (sym p) (fresh-le-within_skew (unix n) now f)

module _ (fl : Float) {D : Type 0} (lib : Libraries fl.F D) where
  require-Post :
      {A : Type 0} (o : Option A) (e : AuthError)
      → Post (λ a. o ≡ some a) (λ _. Unit) (require fl lib o e)
  require-Post none e = tt
  require-Post (some a) e = refl

  Post-all : {E A : Type 0} {B : Type 0} (p : B) (m : Outcome E A) → Post (λ _. B) (λ _. Unit) m
  Post-all p (ok a) = p
  Post-all p (err e) = tt

  or_respond-Post :
      {E A : Type 0} (B : Type 0) (m : Outcome E A) (respond : E → Response D)
      → Post (λ _. B) (λ _. Unit) m
      → Post (λ _. B) (λ _. Unit) (or_respond fl lib m respond)
  or_respond-Post B (ok a) respond h = h
  or_respond-Post B (err e) respond h = tt

  -- the steps of `authenticate` from the timestamp on
  authenticate-Post :
      (s : Settings) (r : Request) (now : Time)
      → Post
          (λ (raw : Bytes). now ≤ expiry_of r.timestamp)
          (λ (_ : AuthError). Unit)
          (authenticate fl lib s r now)
  unfolding authenticate
  authenticate-Post s r now =
      let P : Bytes → Type 0 = λ raw. now ≤ expiry_of r.timestamp in
      let Q : AuthError → Type 0 = λ _. Unit in
      Post-guard P Q (is_json fl lib (lib.media_type r.content_type)) json_required _ tt λ _.
        Post-guard P Q (eqb r.content_encoding (bytes "gzip")) gzip_required _ tt λ _.
          Post-bind (λ _. Unit {0}) P Q
            (require fl lib (find r.key_id s.keys) invalid_authentication) _ (Post-all tt _)
            λ secret _. Post-guard P Q (not (is_empty r.key_id)) invalid_authentication _ tt λ _.
              Post-bind (λ n. parse_int r.timestamp ≡ some n) P Q
                (require fl lib (parse_int r.timestamp) invalid_authentication) _
                (require-Post (parse_int r.timestamp) invalid_authentication)
                λ n p.
                  Post-guard P Q (is_fresh (unix n) now) stale_authentication _ tt
                    λ f. Post-all (fresh-le-expiry r.timestamp n now p f) _

  module _ (visit : List CoinbaseOutput → List CoinbaseOutput) where
    prepare-Post :
        (s : Settings) (r : Request) (now : Time)
        → Post
            (λ (b : Batch fl.F). now ≤ b.expires_at)
            (λ (_ : Response D). Unit)
            (prepare fl lib visit s r now)
    unfolding prepare
    prepare-Post s r now =
        let P : Batch fl.F → Type 0 = λ b. now ≤ b.expires_at in
        let Q : Response D → Type 0 = λ _. Unit in
        Post-guard P Q (eqb r.method (bytes "POST")) method_not_allowed _ tt λ _.
          Post-guard P Q s.can_append ingestion_unavailable _ tt λ _.
            Post-bind (λ _. now ≤ expiry_of r.timestamp) P Q
              (or_respond fl lib (authenticate fl lib s r now) refused) _
              (or_respond-Post (now ≤ expiry_of r.timestamp) (authenticate fl lib s r now) refused
                (authenticate-Post s r now))
              λ raw le.
                Post-bind (λ _. Unit {0}) P Q
                  (or_respond fl lib (lib.decode_envelope raw) undecodable) _ (Post-all tt _)
                  λ envelope _.
                    Post-bind (λ _. Unit {0}) P Q
                      (or_respond fl lib (validate fl lib.sha256 visit s.configuration envelope now)
                        unprocessable)
                      _ (Post-all tt _) λ observation _. le

    -- A request that passes every check of the handler is claimed with an expiry that has not passed.
    pub prepare-le :
        (s : Settings) (r : Request) (now : Time) (b : Batch fl.F)
        → prepare fl lib visit s r now ≡ ok b
        → now ≤ b.expires_at
    prepare-le s r now b h =
        Post-ok (λ (c : Batch fl.F). now ≤ c.expires_at) (λ _. Unit) (prepare fl lib visit s r now)
          (prepare-Post s r now) h
