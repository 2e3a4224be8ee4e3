-- ===== src/Ingest/Receiver/NoReplay.antt =====
-- A batch whose key was accepted is refused until its claim has expired.
use stratum_stats.Base.{
  ◌≤◌, ◌≡◌, sym, ◌∙◌, subst, Bool, true, false, not, Bytes, List, [], ◌∷◌, some, All, Outcome, ok,
  err, Float, find, find-insert, find-erase, bytes_eq, eqb, eqb_iff, arith, ltb, keep,
}
use stratum_stats.Model.{Time, CoinbaseOutput}
use stratum_stats.Ingest.Replay
use stratum_stats.Ingest.Replay.{ReplayGuard, prune, claim}
use stratum_stats.Ingest.Receiver.{
  Request, Response, accepted, duplicate_batch, Settings, Libraries, Server, Batch, commit, prepare,
  answer, serve,
}

-- A binding that has not expired survives the loop over the expired ones.
find-keep :
    (k : Bytes) (e now : Time) (g : ReplayGuard)
    → find k g ≡ some e
    → now ≤ e
    → find k (keep (λ b. not (ltb b.1 now)) g) ≡ some e
find-keep k e now [] h le = cc
find-keep k e now ((j, f) ∷ g) h le = ground (arith, find-keep k e now g, eqb_iff j k)

find-claim-other :
    (k j : Bytes) (e f now : Time) (g : ReplayGuard)
    → find k g ≡ some e
    → now ≤ e
    → find k (claim j now f g).0 ≡ some e
unfolding claim prune
find-claim-other k j e f now g h le =
    ground (arith, find-keep k e now g, find-insert ⦃e = bytes_eq⦄ j k f (prune now g), eqb_iff j k)

claim-fresh :
    (k : Bytes) (now e : Time) (g : ReplayGuard)
    → (claim k now e g).1 ≡ true
    → find k (claim k now e g).0 ≡ some e
unfolding claim
claim-fresh k now e g h =
    ground (arith, find-insert ⦃e = bytes_eq⦄ k k e (prune now g), eqb_iff k k)

find-release :
    (j k : Bytes) (e : Time) (g : ReplayGuard)
    → find k g ≡ some e
    → eqb j k ≡ false
    → find k (Replay.release_claim j g) ≡ some e
unfolding Replay.release_claim
find-release j k e g h n = find-erase ⦃e = bytes_eq⦄ j k g ∙ ground (arith)

claim-stale :
    (k : Bytes) (e f now : Time) (g : ReplayGuard)
    → find k g ≡ some e
    → now ≤ e
    → (claim k now f g).1 ≡ false
unfolding claim prune
claim-stale k e f now g h le = ground (arith, find-keep k e now g)

module _ (fl : Float) {D : Type 0} (lib : Libraries fl.F D)
    (visit : List CoinbaseOutput → List CoinbaseOutput) where
  open fl use {F}

  commit-accepted :
      (s : Settings) (b : Batch F) (now : Time) (appends : Bool) (server : Server F) (id : Bytes)
      → s.guards_replays ≡ true
      → (commit fl lib visit s b now appends server).1 ≡ accepted id
      → find b.key (commit fl lib visit s b now appends server).0.guard ≡ some b.expires_at
  unfolding commit
  commit-accepted s b now appends server id g h =
      ground (arith, claim-fresh b.key now b.expires_at server.guard)

  commit-keeps :
      (s : Settings) (b : Batch F) (now : Time) (appends : Bool) (server : Server F) (k : Bytes)
      (e : Time)
      → find k server.guard ≡ some e
      → now ≤ e
      → find k (commit fl lib visit s b now appends server).0.guard ≡ some e
  unfolding commit
  commit-keeps s b now appends server k e h le = ground (
    arith,
    find-claim-other k b.key e b.expires_at now server.guard,
    claim-stale k e b.expires_at now server.guard,
    find-release b.key k e (claim b.key now b.expires_at server.guard).0,
    eqb_iff b.key k,
  )

  commit-duplicate :
      (s : Settings) (b : Batch F) (now : Time) (appends : Bool) (server : Server F) (e : Time)
      → s.guards_replays ≡ true
      → find b.key server.guard ≡ some e
      → now ≤ e
      → (commit fl lib visit s b now appends server).1 ≡ duplicate_batch
        × (commit fl lib visit s b now appends server).0.log ≡ server.log
  unfolding commit
  commit-duplicate s b now appends server e g h le =
      ground (arith, claim-stale b.key e b.expires_at now server.guard)

  serve-keeps :
      (s : Settings) (r : Request) (now : Time) (appends : Bool) (server : Server F) (k : Bytes)
      (e : Time)
      → find k server.guard ≡ some e
      → now ≤ e
      → find k (serve fl lib visit s r now appends server).0.guard ≡ some e
  unfolding serve answer
  serve-keeps s r now appends server k e h le = go (prepare fl lib visit s r now)
    where
      go :
          (p : Outcome (Response D) (Batch F))
          → find k (answer fl lib visit s now appends server p).0.guard ≡ some e
      go (err response) = h
      go (ok b) = commit-keeps s b now appends server k e h le

  -- the requests that are served, in their order, each with its time and whether its append succeeds
  unfoldable pub serve_all : Settings → List (Request × Time × Bool) → Server F → Server F
  serve_all s [] server = server
  serve_all s ((r, now, appends) ∷ rs) server =
      serve_all s rs (serve fl lib visit s r now appends server).0

  serve_all-keeps :
      (s : Settings) (rs : List (Request × Time × Bool)) (server : Server F) (k : Bytes) (e : Time)
      → find k server.guard ≡ some e
      → All (λ (a : Request × Time × Bool). a.1 ≤ e) rs
      → find k (serve_all s rs server).guard ≡ some e
  unfolding serve_all
  serve_all-keeps s [] server k e h les = h
  serve_all-keeps s ((r, now, appends) ∷ rs) server k e h les =
      serve_all-keeps s rs (serve fl lib visit s r now appends server).0 k e
        (serve-keeps s r now appends server k e h les.0) les.1

  -- With replay protection, where the handler accepts a request and then serves any further requests at times not
  -- after the expiry of the batch's claim, a request with the same key and batch id is refused as a duplicate until
  -- that expiry, and nothing is appended for it.
  pub serve_all-refuses-replay :
      (s : Settings) (r : Request) (now : Time) (appends : Bool) (server : Server F) (b : Batch F)
      (id : Bytes) (rs : List (Request × Time × Bool)) (r' : Request) (now' : Time)
      (appends' : Bool) (b' : Batch F)
      → s.guards_replays ≡ true
      → prepare fl lib visit s r now ≡ ok b
      → (serve fl lib visit s r now appends server).1 ≡ accepted id
      → All (λ (a : Request × Time × Bool). a.1 ≤ b.expires_at) rs
      → prepare fl lib visit s r' now' ≡ ok b'
      → b'.key ≡ b.key
      → now' ≤ b.expires_at
      → let after = serve_all s rs (serve fl lib visit s r now appends server).0 in
        (serve fl lib visit s r' now' appends' after).1 ≡ duplicate_batch
        × (serve fl lib visit s r' now' appends' after).0.log ≡ after.log
  unfolding serve answer
  serve_all-refuses-replay s r now appends server b id rs r' now' appends' b' g p h les p' same le =
      let kept : find b.key (serve fl lib visit s r now appends server).0.guard
          ≡ some b.expires_at =
        subst
          (λ o.
            (answer fl lib visit s now appends server o).1 ≡ accepted id
            → find b.key (answer fl lib visit s now appends server o).0.guard ≡ some b.expires_at)
          (sym p) (commit-accepted s b now appends server id g) h in
      let after = serve_all s rs (serve fl lib visit s r now appends server).0 in
      let held : find b'.key after.guard ≡ some b.expires_at =
        subst (λ k. find k after.guard ≡ some b.expires_at) (sym same)
          (serve_all-keeps s rs (serve fl lib visit s r now appends server).0 b.key b.expires_at
            kept les) in
      subst
        (λ o.
          (answer fl lib visit s now' appends' after o).1 ≡ duplicate_batch
          × (answer fl lib visit s now' appends' after o).0.log ≡ after.log)
        (sym p') (commit-duplicate s b' now' appends' after b.expires_at g held le)
