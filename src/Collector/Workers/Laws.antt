-- ===== src/Collector/Workers/Laws.antt =====
-- What a snapshot of the workers may hold: its labels are fit to print, all different, and few.
use braiins_pool_exporter.Base.{
  ◌+◌, ◌≤◌, ◌≡◌, refl, sym, ap, String, true, false, not, List, [], ◌∷◌, some, arith, ltb, ◌&&◌,
  not-false, le_of_ltb-false, length, All,
}
use braiins_pool_exporter.Base.Int.{ℤ, pos, ◌≤ℤ◌, ltb_ℤ}
use braiins_pool_exporter.Base.Float.{Float64}
use braiins_pool_exporter.Base.Result.{Result, ok, err, >>=-eq-ok, fail_if-ok, ok-injective}
use braiins_pool_exporter.Base.Time.{Time}
use braiins_pool_exporter.Text.{Text, Map, codes, ◌==◌, contains, lookup, to_lower, trim_space}
use braiins_pool_exporter.Text.Laws.{==_iff}
use braiins_pool_exporter.Text.Trim.{IsTrimmed, trim_space-IsTrimmed}
use braiins_pool_exporter.Braiins.Types.{CoinEnvelope, Worker, WorkersResponse}
use braiins_pool_exporter.Collector.Decimals.{parse_windows}
use braiins_pool_exporter.Collector.Pool.{option_or, option_or-ok}
use braiins_pool_exporter.Collector.Workers.{
  WorkerSample, WorkerSnapshot, build_worker_sample, worker_loop, build_worker_snapshot,
  parse_scoring, worker_hashrates, worker_shares, lift,
}
use braiins_pool_exporter.Collector.Workers.Labels.{
  limit_exceeded, message, normalize_worker_label, valid_string, sort_workers, insert_worker,
}

lift-ok : {A : Type 0} (r : Result String A) {a : A} → lift r ≡ ok a → r ≡ ok a
lift-ok (ok b) h = cc
lift-ok (err m) h = cc

-- A label that is not empty, neither begins nor ends with white space, is valid UTF-8 and has at most
-- 128 bytes.
pub record IsLabel (label : Text) : Type 0 where
  pub not_blank : (label == []) ≡ false
  pub trimmed : IsTrimmed label
  pub valid : valid_string label ≡ true
  pub short : length label ≤ 128

pub normalize_worker_label-IsLabel :
    (name label : Text)
    → normalize_worker_label name ≡ ok label
    → IsLabel label × (label ≡ trim_space name)
unfolding normalize_worker_label
normalize_worker_label-IsLabel name label h =
    let (not_blank, h1) = fail_if-ok (trim_space name == []) "Braiins worker label is blank" _ h in
    let (valid, h2) =
      fail_if-ok (not (valid_string (trim_space name))) "Braiins worker label is not valid UTF-8" _
        h1 in
    let (short, h3) =
      fail_if-ok (ltb 128 (length (trim_space name))) "Braiins worker label exceeds maximum length"
        _ h2 in
    let same : trim_space name ≡ label = cc in
    (
      rw (← same) (record {
        not_blank = not_blank;
        trimmed = trim_space-IsTrimmed name;
        valid = not-false _ valid;
        short = le_of_ltb-false 128 _ short;
      }),
      sym same,
    )

-- The names of the workers, each without the white space around it.
abbrev pub trimmed_names : Map Worker → List Text
trimmed_names [] = []
trimmed_names ((name, worker) ∷ rest) = trim_space name ∷ trimmed_names rest

-- No text stands twice.
abbrev pub NoRepeat : List Text → Type 0
NoRepeat [] = Unit
NoRepeat (t ∷ ts) = (contains ts t ≡ false) × NoRepeat ts

length-insert {ℓ} :
    {V : Type ℓ} (e : Text × V) (m : Map V) → length (insert_worker e m) ≡ length m + 1
unfolding insert_worker
length-insert e [] = refl
length-insert e (d ∷ m) = ground (arith, length-insert e m)

length-sort {ℓ} : {V : Type ℓ} (m : Map V) → length (sort_workers m) ≡ length m
unfolding sort_workers
length-sort [] = refl
length-sort (e ∷ m) = omega (arith, length-insert e (sort_workers m), length-sort m)

contains-later :
    (ts labels : List Text) (label : Text)
    → All (λ t. contains (label ∷ labels) t ≡ false) ts
    → contains ts label ≡ false
unfolding contains
contains-later [] labels label h = refl
contains-later (t ∷ ts) labels label h =
    ground (arith, contains-later ts labels label h.1, ==_iff label t, ==_iff t label)

All-weaken :
    (ts labels : List Text) (label : Text)
    → All (λ t. contains (label ∷ labels) t ≡ false) ts
    → All (λ t. contains labels t ≡ false) ts
unfolding contains
All-weaken [] labels label h = tt
All-weaken (t ∷ ts) labels label h = (ground arith, All-weaken ts labels label h.1)

module _ (fl : Float64) (fold : Text → Text) where
  -- The labels of the samples, in order.
  abbrev pub labels_of : List (WorkerSample fl fold) → List Text
  labels_of [] = []
  labels_of (s ∷ ss) = s.label ∷ labels_of ss

  length-labels : (ss : List (WorkerSample fl fold)) → length (labels_of ss) ≡ length ss
  length-labels [] = refl
  length-labels (s ∷ ss) = omega (arith, length-labels ss)

  build_worker_sample-label :
      (label : Text) (worker : Worker) (sample : WorkerSample fl fold)
      → build_worker_sample fl fold label worker ≡ ok sample
      → sample.label ≡ label
  unfolding build_worker_sample
  build_worker_sample-label label worker sample h =
      let unit = trim_space worker.hash_rate_unit in
      let (_, h1) =
        fail_if-ok (not (unit == []) && not (unit == codes "Gh/s"))
          "Braiins worker has unsupported hashrate unit" _ h in
      let (_, _, h2) =
        >>=-eq-ok
          (parse_windows fl "Braiins worker has invalid hashrate value" (worker_hashrates worker)) _
          h1 in
      let (_, _, h3) = >>=-eq-ok (parse_scoring fl fold worker.hash_rate_scoring) _ h2 in
      let (_, _, h4) =
        >>=-eq-ok
          (parse_windows fl "Braiins worker has invalid shares value" (worker_shares worker)) _
          h3 in
      sym (ap (λ (s : WorkerSample fl fold). s.label) (ok-injective h4))

  -- What the loop has made sure of.
  record Loops (labels : List Text) (entries : Map Worker) (out : List Text) : Type 0 where
    counted : length out ≡ length entries
    named : out ≡ trimmed_names entries
    printable : All IsLabel out
    new : All (λ t. contains labels t ≡ false) out
    different : NoRepeat out

  worker_loop-Loops :
      (labels : List Text) (entries : Map Worker) (samples : List (WorkerSample fl fold))
      → worker_loop fl fold labels entries ≡ ok samples
      → Loops labels entries (labels_of samples)
  unfolding worker_loop
  worker_loop-Loops labels [] samples h =
      let none_left : [] ≡ samples = cc in
      rw (← none_left)
        (record { counted = refl; named = refl; printable = tt; new = tt; different = tt })
  worker_loop-Loops labels ((name, worker) ∷ rest) samples h =
      let (label, e1, h1) = >>=-eq-ok (lift (normalize_worker_label name)) _ h in
      let (new, h2) =
        fail_if-ok (contains labels label)
          (message "Braiins workers response contains duplicate normalized worker labels") _ h1 in
      let (sample, e2, h3) = >>=-eq-ok (lift (build_worker_sample fl fold label worker)) _ h2 in
      let (others, e3, h4) = >>=-eq-ok (worker_loop fl fold (label ∷ labels) rest) _ h3 in
      let tail = worker_loop-Loops (label ∷ labels) rest others e3 in
      let (good, trimmed) = normalize_worker_label-IsLabel name label (lift-ok _ e1) in
      let own : label ≡ sample.label =
        sym (build_worker_sample-label label worker sample (lift-ok _ e2)) in
      let all : sample ∷ others ≡ samples = cc in
      rw (← all, ← own)
        (record {
          counted = omega (arith, tail.counted);
          named = cc (trimmed, tail.named);
          printable = (good, tail.printable);
          new = (new, All-weaken (labels_of others) labels label tail.new);
          different = (contains-later (labels_of others) labels label tail.new, tail.different);
        })

  -- The labels of a snapshot that is built are not empty, neither begin nor end with white space, are
  -- valid UTF-8 and at most 128 bytes long; no label stands twice; there is one for each worker of the
  -- response, at most the limit in all; and they are the names of the workers in their order, each
  -- without the white space around it.
  pub build_worker_snapshot-labels :
      (coin : Text) (now : Time) (max_workers : ℤ) (envelope : CoinEnvelope WorkersResponse)
      (snapshot : WorkerSnapshot fl fold)
      → build_worker_snapshot fl fold coin now max_workers envelope ≡ ok snapshot
      → (response : WorkersResponse) × (lookup envelope (to_lower fold coin) ≡ some response)
        × (length snapshot.workers ≡ length response.workers)
        × (pos (length snapshot.workers) ≤ℤ max_workers)
        × All IsLabel (labels_of snapshot.workers)
        × NoRepeat (labels_of snapshot.workers)
        × (labels_of snapshot.workers ≡ trimmed_names (sort_workers response.workers))
  unfolding build_worker_snapshot
  build_worker_snapshot-labels coin now max_workers envelope snapshot h =
      let (response, found, h1) =
        >>=-eq-ok
          (option_or (message "Braiins workers response missing configured coin")
            (lookup envelope (to_lower fold coin)))
          _ h in
      let (few, h2) =
        fail_if-ok (ltb_ℤ max_workers (pos (length response.workers))) limit_exceeded _ h1 in
      let (samples, built, h3) =
        >>=-eq-ok (worker_loop fl fold [] (sort_workers response.workers)) _ h2 in
      let loops = worker_loop-Loops [] (sort_workers response.workers) samples built in
      let same : ◌≡◌ {A = WorkerSnapshot fl fold} (record { collected_at = now; workers = samples })
          snapshot =
        cc in
      rw (← same) (
        response,
        option_or-ok _ _ found,
        omega (arith, loops.counted, length-labels samples, length-sort response.workers),
        omega (
          arith,
          loops.counted,
          length-labels samples,
          length-sort response.workers,
          le_of_ltb-false _ _ few,
        ),
        loops.printable,
        loops.different,
        loops.named,
      )
