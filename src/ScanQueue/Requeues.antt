-- ===== src/ScanQueue/Requeues.antt =====
-- What a requeue and a new position leave of a count of jobs: `admitScanJob` of src/services/scanQueue.ts.
use dragnet.Prelude.{
  String, Bool, true, false, List, [], ◌∷◌, ◌≡◌, refl, sym, ap, subst, arith, All, count_where,
  ◌==◌, Bool-cases, inl, inr, All-of_all,
}
use dragnet.Database.{Table, RowOrder, update_where}
use dragnet.ScanQueue.{Job, is_queued, wants_priority, normalize_explicit_priorities, position_for}
use dragnet.ScanQueue.Admit.{answer, requeue}

count_where-update_where-same :
    (p q : Job → Bool) (f : Job → Job) (js : List Job)
    → All (λ x. p x ≡ true → q (f x) ≡ q x) js
    → count_where q (update_where p f js) ≡ count_where q js
count_where-update_where-same p q f [] h = refl
count_where-update_where-same p q f (x ∷ xs) h =
    ground (arith, h.0, count_where-update_where-same p q f xs h.1)

pub count_where-none :
    (p : Job → Bool) (js : List Job) → All (λ x. p x ≡ false) js → count_where p js ≡ 0
count_where-none p [] h = refl
count_where-none p (x ∷ xs) h = ground (arith, count_where-none p xs h.1)

module _ (J : Table Job) (ids : RowOrder String) (q : Job → Bool)
    (raised : (x : Job) → wants_priority x ≡ true → q (record x { priority = 10 }) ≡ q x) where
  count_where-position_for :
      (job : Job) (t : J.Rows)
      → count_where q (J.rows (position_for J ids job t).1) ≡ count_where q (J.rows t)
  unfolding position_for normalize_explicit_priorities
  count_where-position_for job t = elim (Bool-cases (is_queued job.state)) [
    | inl e ↦
        rw (e, position_for)
          (subst (λ js. count_where q js ≡ count_where q (J.rows t))
            (sym (J.update_many-rows wants_priority _ t))
            (count_where-update_where-same wants_priority q _ (J.rows t)
              (All-of_all _ (J.rows t) raised)))
    | inr e ↦ rw (e, position_for) refl
  ]

  pub count_where-answer :
      (job : Job) (t : J.Rows)
      → count_where q (J.rows (answer J ids job t).1) ≡ count_where q (J.rows t)
  unfolding answer
  count_where-answer job t = count_where-position_for job t

  pub count_where-requeue :
      (f : Job → Job) (job : Job) (t : J.Rows)
      → All (λ x. (x.id == job.id) ≡ true → q (f x) ≡ q x) (J.rows t)
      → count_where q (J.rows (requeue J ids f job t).1) ≡ count_where q (J.rows t)
  unfolding requeue
  count_where-requeue f job t h =
      let mine : Job → Bool = λ j. j.id == job.id in
      let written = count_where-answer (f job) (J.update_many mine f t).1 in
      let rows = ap (count_where q) (J.update_many-rows mine f t) in
      ground (arith, written, rows, count_where-update_where-same mine q f (J.rows t) h)
