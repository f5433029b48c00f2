-- ===== src/ScanQueue/Exclusion.antt =====
-- A job that a worker holds is not claimed by another one, however their queries are interleaved
-- (`claimNextScanJob` of src/services/scanQueue.ts).
use dragnet.Prelude.{
  ℕ, ◌+◌, ◌≤◌, String, Bool, true, false, Option, none, some, List, [], ◌∷◌, ◌≡◌, refl, ap, sym,
  ◌∙◌, All, arith, ◌&&◌, leb, ◌==◌, eq_refl, eq_iff, count_where, Bool-cases, inl, inr, subst,
}
use dragnet.Database.{Table, RowOrder, update_where}
use dragnet.ScanQueue.{Job, is_queued, is_running, wants_priority, normalize_explicit_priorities}
use dragnet.ScanQueue.Claim.{
  start, back_to_queue, lease_expired, is_owned, finish, renew_scan_job_lease,
  recover_expired_scan_jobs, release_scan_job,
}
use dragnet.ScanQueue.Rows.{All-update_where, UniqueIds, none_with_id}
use dragnet.ScanQueue.Interleaving.{
  ClaimPhase, recovering, normalizing, counting, finding, limiting, writing, ended, claim_step,
  Other, claiming, renewing, releasing, Others, quiet, next,
}

-- running for this worker, under a lease that does not end before `until`
abbrev is_held : String → ℕ → Job → Bool
is_held owner until x =
    is_running x.state
    && (elim x.worker_id [ none ↦ false | some w ↦ w == owner ])
    && (elim x.lease_expires_at [ none ↦ false | some at ↦ leb until at ])

-- if it is the row of the job
abbrev Held : String → String → ℕ → Job → Type 0
Held id owner until x = (x.id == id) ≡ true → is_held owner until x ≡ true

module _ (J : Table Job) (id owner : String) (until : ℕ) where
  abbrev AllHeld : J.Rows → Type 0
  AllHeld t = All (Held id owner until) (J.rows t)

  update-Held :
      (p : Job → Bool) (f : Job → Job) (t : J.Rows)
      → ((x : Job) → (f x).id ≡ x.id)
      → ((x : Job)
          → (x.id == id) ≡ true
          → is_held owner until x ≡ true
          → p x ≡ true
          → is_held owner until (f x) ≡ true)
      → AllHeld t
      → AllHeld (J.update_many p f t).1
  update-Held p f t same keeps h =
      subst (All (Held id owner until)) (sym (J.update_many-rows p f t)) (
        All-update_where (Held id owner until) (Held id owner until) p f (J.rows t)
          (λ x held. elim (Bool-cases (p x)) [
            | inr e ↦ rw e held
            | inl e ↦ rw e (λ i.
                keeps x (ap (λ k. k == id) (sym (same x)) ∙ i)
                  (held (ap (λ k. k == id) (sym (same x)) ∙ i)) e)
          ])
          h)

  expired-Held :
      (at : ℕ) (f : Job → Job) (t : J.Rows)
      → ((x : Job) → (f x).id ≡ x.id)
      → at ≤ until
      → AllHeld t
      → AllHeld (J.update_many (lease_expired at) f t).1
  expired-Held at f t same early =
      update-Held (lease_expired at) f t same (λ x i held late. ground (arith, held, late, early))

  queued-Held :
      (name : String) (f : Job → Job) (t : J.Rows)
      → ((x : Job) → (f x).id ≡ x.id)
      → AllHeld t
      → AllHeld (J.update_many (λ j. j.id == name && is_queued j.state) f t).1
  queued-Held name f t same =
      update-Held (λ j. j.id == name && is_queued j.state) f t same
        (λ x i held waits. ground (arith, held, waits))

  normalized-Held : (t : J.Rows) → AllHeld t → AllHeld (normalize_explicit_priorities J t)
  unfolding normalize_explicit_priorities
  normalized-Held t =
      update-Held wants_priority (λ x. record x { priority = 10 }) t (λ x. refl)
        (λ x i held raised. held)

same_text : (a b c : String) → (a == b) ≡ true → (a == c) ≡ true → (b == c) ≡ true
same_text a b c h k = (eq_iff b c).1 (sym ((eq_iff a b).0 h) ∙ (eq_iff a c).0 k)

same_worker :
    (o : Option String) (owner worker : String)
    → (elim o [ none ↦ false | some w ↦ w == owner ]) ≡ true
    → (elim o [ none ↦ false | some w ↦ w == worker ]) ≡ true
    → (owner == worker) ≡ true
same_worker none owner worker h k = cc h
same_worker (some w) owner worker h k = same_text w owner worker h k

-- Others keep the row of the job as it is held.
module _ (J : Table Job) (ids : RowOrder String) (id owner : String) (from lease_ms : ℕ) where
  abbrev Kept : J.Rows → Type 0
  Kept = AllHeld J id owner (from + lease_ms)

  claim_step-Kept :
      (repo_limit : String → Option ℕ) (worker : String) (most at lease : ℕ) (phase : ClaimPhase)
      (t : J.Rows)
      → at ≤ from + lease_ms
      → Kept t
      → Kept (claim_step J ids repo_limit worker most at lease phase t).1
  unfolding claim_step
  claim_step-Kept repo_limit worker most at lease recovering t early h =
      expired-Held J id owner (from + lease_ms) at back_to_queue t (λ x. refl) early h
  claim_step-Kept repo_limit worker most at lease normalizing t early h =
      normalized-Held J id owner (from + lease_ms) t h
  claim_step-Kept repo_limit worker most at lease counting t early h = h
  claim_step-Kept repo_limit worker most at lease (finding excluded) t early h = h
  claim_step-Kept repo_limit worker most at lease (limiting excluded job) t early h = h
  claim_step-Kept repo_limit worker most at lease (writing excluded job) t early h =
      queued-Held J id owner (from + lease_ms) job.id (start worker at (at + lease)) t (λ x. refl) h
  claim_step-Kept repo_limit worker most at lease (ended answer) t early h = h

  not_released :
      (name worker : String) (x : Job)
      → (x.id == id) ≡ true
      → is_held owner (from + lease_ms) x ≡ true
      → is_owned name worker x ≡ true
      → (id == name && owner == worker) ≡ false
      → ⊥
  not_released name worker x i held mine apart =
      let row = same_text x.id id name i (ground (arith, mine)) in
      let by = same_worker x.worker_id owner worker (ground (arith, held)) (ground (arith, mine)) in
      cc (row, by, apart)

  Other-Kept : (t u : J.Rows) → Other J ids id owner from lease_ms t u → Kept t → Kept u
  unfolding renew_scan_job_lease recover_expired_scan_jobs release_scan_job
  Other-Kept t u (claiming repo_limit worker most at lease phase s early) h =
      claim_step-Kept repo_limit worker most at lease phase t early h
  Other-Kept t u (renewing name worker at s late) h =
      update-Held J id owner (from + lease_ms) (is_owned name worker)
        (λ j. record j { lease_expires_at = some (at + lease_ms) }) t (λ x. refl)
        (λ x i held mine. ground (arith, held, late)) h
  Other-Kept t u (Other.recovering at s early) h =
      expired-Held J id owner (from + lease_ms) at
        (λ j. record (back_to_queue j) { resume_requested = true }) t (λ x. refl) early h
  Other-Kept t u (releasing name worker state run message at s apart) h =
      update-Held J id owner (from + lease_ms) (is_owned name worker) (finish state run message at)
        t (λ x. refl) (λ x i held mine. absurd (not_released name worker x i held mine apart)) h

  Others-Kept : (t u : J.Rows) → Others J ids id owner from lease_ms t u → Kept t → Kept u
  Others-Kept t u (quiet s) h = h
  Others-Kept t u (next s v w one rest) h = Others-Kept v u rest (Other-Kept t v one h)

module _ (worker : String) (now lease_ms : ℕ) (job : Job) where
  abbrev waits : Job → Bool
  waits j = j.id == job.id && is_queued j.state

  abbrev Stays : Job → Type 0
  Stays = Held job.id worker (now + lease_ms)

  others-Stays :
      (x : Job) (xs : List Job)
      → (x.id == job.id) ≡ true
      → All (λ y. (y.id == x.id) ≡ false) xs
      → All Stays (update_where waits (start worker now (now + lease_ms)) xs)
  others-Stays x xs same apart =
      All-update_where (λ y. (y.id == x.id) ≡ false) Stays waits (start worker now (now + lease_ms))
        xs
        (λ y other.
          let e : (y.id == job.id) ≡ false =
            subst (λ k. (y.id == k) ≡ false) ((eq_iff x.id job.id).0 same) other in
          rw e (λ i. cc (i, e)))
        apart

  -- the one row that a claim writes is held from then on
  rows-Stays :
      (rows : List Job)
      → UniqueIds rows
      → count_where waits rows ≡ 1
      → All Stays (update_where waits (start worker now (now + lease_ms)) rows)
  rows-Stays [] u one = tt
  rows-Stays (x ∷ xs) u one = elim (Bool-cases (waits x)) [
    | inl hit ↦
        rw hit ((λ i. ground (arith, eq_refl worker)), others-Stays x xs (ground (arith, hit)) u.0)
    | inr miss ↦
        let rest : count_where waits xs ≡ 1 = ground (arith, one, miss) in
        rw miss (
          (λ i.
              let none_left =
                none_with_id waits x xs
                  (λ y h.
                    let e : (y.id == job.id) ≡ true = ground (arith, h) in
                    (eq_iff y.id x.id).1
                      ((eq_iff y.id job.id).0 e ∙ sym ((eq_iff x.id job.id).0 i)))
                  u.0 in
              absurd (omega (arith, rest, none_left))),
          rows-Stays xs u.1 rest,
        )
  ]

none_queued :
    (id owner name : String) (until : ℕ) (rows : List Job)
    → (name == id) ≡ true
    → All (Held id owner until) rows
    → count_where (λ j. j.id == name && is_queued j.state) rows ≡ 0
none_queued id owner name until [] same h = refl
none_queued id owner name until (x ∷ xs) same h =
    let here : name ≡ id = (eq_iff name id).0 same in
    let idle : (x.id == name && is_queued x.state) ≡ false = elim (Bool-cases (x.id == name)) [
      | inr other ↦ ground (arith, other)
      | inl mine ↦
          let held = h.0 (subst (λ k. (x.id == k) ≡ true) here mine) in ground (arith, held)
    ] in
    rw idle (none_queued id owner name until xs same h.1)

module _ (J : Table Job) (ids : RowOrder String) (limit : String → Option ℕ) (worker : String)
    (most now lease_ms : ℕ) (excluded : List String) (job : Job) where
  abbrev write : J.Rows → ClaimPhase × J.Rows
  write = claim_step J ids limit worker most now lease_ms (writing excluded job)

  -- a claim that succeeds has written one row
  write-one :
      (t : J.Rows) (taken : Job)
      → (write t).0 ≡ ended (some taken)
      → count_where (waits worker now lease_ms job) (J.rows t) ≡ 1
  unfolding claim_step
  write-one t taken e =
      let hit = waits worker now lease_ms job in
      let count = J.update_many-count hit (start worker now (now + lease_ms)) t in
      ground (arith, e, count)

  write-Held :
      (t : J.Rows) (taken : Job)
      → UniqueIds (J.rows t)
      → (write t).0 ≡ ended (some taken)
      → AllHeld J job.id worker (now + lease_ms) (write t).1
  unfolding claim_step
  write-Held t taken u e =
      subst (All (Held job.id worker (now + lease_ms)))
        (sym (
          J.update_many-rows (waits worker now lease_ms job) (start worker now (now + lease_ms)) t))
        (rows-Stays worker now lease_ms job (J.rows t) u (write-one t taken e))

  -- a write that finds no queued row goes back to the search
  write-lost :
      (t : J.Rows)
      → count_where (waits worker now lease_ms job) (J.rows t) ≡ 0
      → (write t).0 ≡ finding (job.id ∷ excluded)
  unfolding claim_step
  write-lost t none_left =
      let hit = waits worker now lease_ms job in
      let count = J.update_many-count hit (start worker now (now + lease_ms)) t in
      ground (arith, none_left, count)

module _ (J : Table Job) (ids : RowOrder String) (limit limit' : String → Option ℕ)
    (worker worker' : String) (most most' now later lease_ms lease' : ℕ) where
  -- In a table with unique ids, a worker's claim of a job has succeeded. Then, while only queries of claims by
  -- any workers, recoveries up to the end of the lease, renewals for as long a lease from its start on, and
  -- releases but that of this job by this worker come in between, in any order, every claim that has found the
  -- same job, before or after, loses the race when it writes, and goes on with its search.
  pub claim_step-exclusive :
      (excluded excluded' : List String) (job job' taken : Job) (t u : J.Rows)
      → UniqueIds (J.rows t)
      → let claim = claim_step J ids limit worker most now lease_ms (writing excluded job) t in
        claim.0 ≡ ended (some taken)
        → Others J ids job.id worker now lease_ms claim.1 u
        → (job'.id == job.id) ≡ true
        → (claim_step J ids limit' worker' most' later lease' (writing excluded' job') u).0
          ≡ finding (job'.id ∷ excluded')
  claim_step-exclusive excluded excluded' job job' taken t u unique won others same =
      let held = write-Held J ids limit worker most now lease_ms excluded job t taken unique won in
      let kept = Others-Kept J ids job.id worker now lease_ms _ u others held in
      write-lost J ids limit' worker' most' later lease' excluded' job' u
        (none_queued job.id worker job'.id (now + lease_ms) (J.rows u) same kept)
