-- ===== src/ScanQueue/Claims.antt =====
-- Which job `claimNextScanJob` takes, that it always answers, and the bound on live jobs.
use dragnet.Prelude.{
  ℕ, zero, suc, ◌+◌, ◌<◌, String, Bool, true, false, ◌&&◌, Option, none, some, List, ◌∷◌, ◌≡◌, refl,
  sym, ◌∙◌, inl, inr, All, All-map₂, Memᴰ, arith, ◌==◌, eq_iff, eq_refl, count_where, Bool-cases,
}
use mathlib.Core.Bool.{false≢true}
use dragnet.Prelude.Dict
use dragnet.Database.{Table, RowOrder, update_where}
use dragnet.ScanQueue.{Job, is_queued, queue_order}
use dragnet.ScanQueue.Claim.{
  Claimed, no_fuel, nothing, claimed, start, at_repo_limit, is_candidate, try_claim, claim_round,
  claim_loop,
}
use dragnet.ScanQueue.Rows.{UniqueIds, same_id, count_where-id, count_where-lt}

module _ (J : Table Job) (ids : RowOrder String) (repo_limit : String → Option ℕ) (worker : String)
    (max_concurrent now lease_ms : ℕ) where
  open J use {Rows, rows}

  abbrev full : Job → Rows → Bool
  full = at_repo_limit J repo_limit max_concurrent now

  abbrev pub takes : Job → Job → Bool
  takes next j = j.id == next.id && is_queued j.state

  abbrev started : Job → Job
  started = start worker now (now + lease_ms)

  -- What an answer says of the table `t` in which the search was made.
  pub record IsTaken (t : Rows) (next j : Job) (t' : Rows) : Type 0 where
    pub stored : Memᴰ next (rows t)
    pub was_queued : is_queued next.state ≡ true
    pub has_slot : full next t ≡ false
    pub result : j ≡ started next
    pub written : rows t' ≡ update_where (takes next) started (rows t)
    pub first :
        All
          (λ x. is_queued x.state ≡ true → (queue_order ids).before x next ≡ true → full x t ≡ true)
          (rows t)

  abbrev pub Answers : Rows → Claimed Rows → Type 0
  Answers t no_fuel = ⊥
  Answers t (nothing t') = (t' ≡ t) × All (λ x. is_queued x.state ≡ true → full x t ≡ true) (rows t)
  Answers t (claimed j t') = (next : Job) × IsTaken t next j t'

  -- Every job that was passed over is in a repository at its limit.
  abbrev PassedOver : List String → Rows → Type 0
  PassedOver excluded t = All (λ x. Dict.has excluded x.id ≡ true → full x t ≡ true) (rows t)

  candidate_of_queued :
      (excluded : List String) (x : Job)
      → is_queued x.state ≡ true
      → is_candidate excluded x ≡ false
      → Dict.has excluded x.id ≡ true
  candidate_of_queued excluded x q c = ground arith

  -- one round has found no candidate
  all_full :
      (excluded : List String) (t : Rows)
      → PassedOver excluded t
      → All (λ x. is_candidate excluded x ≡ false) (rows t)
      → All (λ x. is_queued x.state ≡ true → full x t ≡ true) (rows t)
  all_full excluded t =
      All-map₂ (λ x. Dict.has excluded x.id ≡ true → full x t ≡ true)
        (λ x. is_candidate excluded x ≡ false) (λ x. is_queued x.state ≡ true → full x t ≡ true)
        (rows t) (λ x over c q. over (candidate_of_queued excluded x q c))

  excluded_or_later :
      (excluded : List String) (x next : Job)
      → is_queued x.state ≡ true
      → (queue_order ids).before x next ≡ true
      → (is_candidate excluded x ≡ true → (queue_order ids).before x next ≡ false)
      → Dict.has excluded x.id ≡ true
  excluded_or_later excluded x next q sooner least = elim (Bool-cases (is_candidate excluded x)) [
    | inl c ↦ absurd (false≢true (sym (least c) ∙ sooner))
    | inr c ↦ candidate_of_queued excluded x q c
  ]

  sooner_full :
      (excluded : List String) (t : Rows) (next : Job)
      → PassedOver excluded t
      → All (λ x. is_candidate excluded x ≡ true → (queue_order ids).before x next ≡ false) (rows t)
      → All
          (λ x. is_queued x.state ≡ true → (queue_order ids).before x next ≡ true → full x t ≡ true)
          (rows t)
  sooner_full excluded t next =
      All-map₂ (λ x. Dict.has excluded x.id ≡ true → full x t ≡ true)
        (λ x. is_candidate excluded x ≡ true → (queue_order ids).before x next ≡ false)
        (λ x. is_queued x.state ≡ true → (queue_order ids).before x next ≡ true → full x t ≡ true)
        (rows t) (λ x over least q sooner. over (excluded_or_later excluded x next q sooner least))

  -- one more job is passed over
  pass_over :
      (excluded : List String) (t : Rows) (next : Job)
      → UniqueIds (rows t)
      → Memᴰ next (rows t)
      → full next t ≡ true
      → PassedOver excluded t
      → PassedOver (next.id ∷ excluded) t
  unfolding Dict.has
  pass_over excluded t next u m at_limit =
      All-map₂ (λ x. (x.id == next.id) ≡ true → x ≡ next)
        (λ x. Dict.has excluded x.id ≡ true → full x t ≡ true)
        (λ x. Dict.has (next.id ∷ excluded) x.id ≡ true → full x t ≡ true) (rows t)
        (λ x same over has. elim (Bool-cases (x.id == next.id)) [
          | inl e ↦ rw (same e) at_limit
          | inr e ↦ over (ground (arith, eq_iff x.id next.id, eq_iff next.id x.id))
        ])
        (same_id next (rows t) u m)

  candidates_fall :
      (excluded : List String) (t : Rows) (next : Job)
      → Memᴰ next (rows t)
      → is_candidate excluded next ≡ true
      → count_where (is_candidate (next.id ∷ excluded)) (rows t)
        < count_where (is_candidate excluded) (rows t)
  unfolding Dict.has
  candidates_fall excluded t next m c =
      count_where-lt (is_candidate excluded) (is_candidate (next.id ∷ excluded)) next (rows t)
        (λ x h. ground (arith, eq_iff next.id x.id)) m c (ground (arith, eq_refl next.id))

  written_once :
      (t : Rows) (next : Job)
      → UniqueIds (rows t)
      → Memᴰ next (rows t)
      → is_queued next.state ≡ true
      → (J.update_many (takes next) started t).0 ≡ 1
  written_once t next u m q =
      J.update_many-count (takes next) started t
      ∙ count_where-id (takes next) next (rows t) u m (ground (arith, eq_refl next.id))
          (λ x h. ground arith)

  abbrev loop : ℕ → List String → Rows → Claimed Rows
  loop = claim_loop J ids repo_limit worker max_concurrent now lease_ms

  abbrev look : List String → Rows → Option Job
  look excluded t = J.find_first (is_candidate excluded) (queue_order ids) t

  taken :
      (excluded : List String) (t : Rows) (next : Job)
      → PassedOver excluded t
      → look excluded t ≡ some next
      → full next t ≡ false
      → IsTaken t next (started next) (J.update_many (takes next) started t).1
  taken excluded t next over found slot = record {
    stored = J.find_first-mem (is_candidate excluded) (queue_order ids) t next found;
    was_queued =
        ground (arith, J.find_first-match (is_candidate excluded) (queue_order ids) t next found);
    has_slot = slot;
    result = refl;
    written = J.update_many-rows (takes next) started t;
    first =
        sooner_full excluded t next over
          (J.find_first-least (is_candidate excluded) (queue_order ids) t next found);
  }

  -- a round, given that the next ones answer
  try_claim-Answers :
      (again : List String → Rows → Claimed Rows) (excluded : List String) (t : Rows) (next : Job)
      → UniqueIds (rows t)
      → PassedOver excluded t
      → look excluded t ≡ some next
      → (full next t ≡ true → Answers t (again (next.id ∷ excluded) t))
      → Answers t
          (try_claim J ids repo_limit worker max_concurrent now lease_ms again excluded next t)
  unfolding try_claim
  try_claim-Answers again excluded t next u over found on = elim (Bool-cases (full next t)) [
    | inl at_limit ↦ rw (at_limit, try_claim) (on at_limit)
    | inr slot ↦
        let k = taken excluded t next over found slot in
        rw (slot, try_claim, written_once t next u k.stored k.was_queued) (next, k)
  ]

  claim_round-Answers :
      (again : List String → Rows → Claimed Rows) (excluded : List String) (t : Rows)
      (o : Option Job)
      → UniqueIds (rows t)
      → PassedOver excluded t
      → look excluded t ≡ o
      → ((next : Job)
          → o ≡ some next
          → full next t ≡ true
          → Answers t (again (next.id ∷ excluded) t))
      → Answers t
          (claim_round J ids repo_limit worker max_concurrent now lease_ms again excluded o t)
  unfolding claim_round
  claim_round-Answers again excluded t none u over found on = (
    refl,
    all_full excluded t over (J.find_first-none (is_candidate excluded) (queue_order ids) t found),
  )
  claim_round-Answers again excluded t (some next) u over found on =
      try_claim-Answers again excluded t next u over found (on next refl)

  pub claim_loop-Answers :
      (fuel : ℕ) (excluded : List String) (t : Rows)
      → UniqueIds (rows t)
      → PassedOver excluded t
      → count_where (is_candidate excluded) (rows t) < fuel
      → Answers t (loop fuel excluded t)
  unfolding claim_loop
  claim_loop-Answers zero excluded t u over h = absurd (omega arith)
  claim_loop-Answers (suc fuel) excluded t u over h =
      claim_round-Answers (loop fuel) excluded t (look excluded t) u over refl
        (λ next found at_limit.
          let m = J.find_first-mem (is_candidate excluded) (queue_order ids) t next found in
          let c = J.find_first-match (is_candidate excluded) (queue_order ids) t next found in
          claim_loop-Answers fuel (next.id ∷ excluded) t u
            (pass_over excluded t next u m at_limit over)
            (omega (arith, candidates_fall excluded t next m c)))
