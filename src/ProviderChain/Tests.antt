-- ===== src/ProviderChain/Tests.antt =====
-- Three providers: the first times out, the second gives up, the third submits a low rating.
use dragnet.Prelude.{
  ℕ, ◌+◌, ◌<◌, String, true, false, Option, none, some, get_or, is_some, List, [], ◌∷◌, length,
  ◌==◌, if◌then◌else◌, ◌≡◌, refl, sym, ap, ◌∙◌, Option-cases, inl, inr,
}
use dragnet.Prelude.Strokes.{strokes, strokes-lt}
use dragnet.Prelude.Dict.{get}
use dragnet.FailureClassifier.{ProviderError, is_retryable_error}
use dragnet.ProviderChain.{
  ChatEntry, ProviderAttempt, DurableAttempt, completed, AttemptTable, Ending, submitted, gave_up,
  threw, Conversation, reviewed,
}
use dragnet.FailureClassifier
use dragnet.ProviderChain.Loop.{ChainState}
use dragnet.ProviderChain.Fallback.{IsPassedOver, Submits, llm_review-fallback}
use dragnet.ProviderChain.Fallback
use dragnet.ProviderChain.Breaker
use dragnet.ProviderChain.Breaker.{llm_review-Spares}
use dragnet.ProviderChain.Resumed
use dragnet.ProviderChain.Resumed.{is_reviewed, llm_review-stored}

abbrev Rows : Type 0
Rows = String → Option DurableAttempt

abbrev put : String → DurableAttempt → Rows → Rows
put k new t j = if k == j then some new else t j

abbrev create : String → DurableAttempt → Rows → Option Rows
create k new t = if is_some (t k) then none else some (put k new t)

abbrev change : String → (DurableAttempt → DurableAttempt) → Rows → Option Rows
change k f t = elim (t k) [ none ↦ none | some r ↦ some (put k (f r) t) ]

create-taken :
    (k : String) (new r : DurableAttempt) (t : Rows) → t k ≡ some r → create k new t ≡ none
create-taken k new r t h = rw h refl

put-other :
    (k j : String) (new : DurableAttempt) (t t' : Rows)
    → ◌≡◌ {A = Option Rows} (some (put k new t)) (some t')
    → (k == j) ≡ false
    → t' j ≡ t j
put-other k j new t t' h other =
    let same : t' ≡ put k new t = sym (ap (λ (o : Option Rows). get_or o t) h) in
    ap (λ (s : Rows). s j) same ∙ rw other refl

create-other :
    (k j : String) (new : DurableAttempt) (t t' : Rows)
    → create k new t ≡ some t'
    → (k == j) ≡ false
    → t' j ≡ t j
create-other k j new t t' h other = elim (Option-cases (t k)) [
  | inl free ↦ put-other k j new t t' (rw free at h) other
  | inr (r, taken) ↦ cc (h, taken)
]

change-other :
    (k j : String) (f : DurableAttempt → DurableAttempt) (t t' : Rows)
    → change k f t ≡ some t'
    → (k == j) ≡ false
    → t' j ≡ t j
change-other k j f t t' h other = elim (Option-cases (t k)) [
  | inl free ↦ cc (h, free)
  | inr (r, taken) ↦ put-other k j (f r) t t' (rw (taken, change) at h) other
]

abbrev table : AttemptTable
table = record {
  Rows = Rows;
  find_unique = λ k t. t k;
  create = create;
  update = change;
  create-taken = create-taken;
  create-other = create-other;
  update-other = change-other;
}

abbrev key : ℕ → String → String
key i name = strokes i

abbrev entry : String → ChatEntry
entry name = record { name = name; model = "m"; endpoint = "e"; max_iterations = 8 }

abbrev timeout : ProviderError
timeout = record { status = some 503; code = ""; name = "Error"; message = "busy" }

abbrev talk : Ending → Conversation
talk ending = record {
  ending = ending;
  iterations = 2;
  malformed_streak = 0;
  prompt_tokens = 10;
  completion_tokens = 5;
}

-- by the name of the provider; the world counts the conversations
abbrev converse : ℕ → ChatEntry → List ProviderAttempt → ℕ → Conversation × ℕ
converse i e attempts w = (
  talk (
      if e.name == "one"
      then threw timeout
      else if e.name == "two"
      then gave_up
      else submitted (some 3)),
  w + 1,
)

abbrev clock : ℕ → ℕ
clock w = w

abbrev circuit : ChatEntry → String
circuit e = e.name

abbrev start : Rows → ChainState table ℕ
start rows = record {
  final = none;
  used_model = none;
  agentic_error = none;
  attempts = [];
  health = [];
  rows = rows;
  world = 0;
}

abbrev no_rows : Rows
no_rows k = none

one_passed :
    (i : ℕ) (attempts : List ProviderAttempt) (w : ℕ)
    → Fallback.is_passed_over (converse i (entry "one") attempts w).0.ending ≡ true
unfolding is_retryable_error
one_passed i attempts w = refl

apart : (i j : ℕ) (n m : String) → i < j → (key i n == key j m) ≡ false
apart i j n m less = strokes-lt i j less

llm_review-fallback_example :
    let (result, after) =
      Fallback.review table ℕ key circuit converse clock true 3 100 true apart
        (entry "one" ∷ entry "two" ∷ entry "three" ∷ entry "four" ∷ [])
        (start no_rows) in
    (result ≡ reviewed 3)
    × (after.final ≡ some (record { rating = some 3; provider = "three" }))
    × (length after.attempts ≡ 3)
llm_review-fallback_example =
    llm_review-fallback table ℕ key circuit converse clock true 3 100 true apart
      (entry "one" ∷ entry "two" ∷ []) (entry "three") (entry "four" ∷ []) (some 3) (start no_rows)
      (refl, (refl, (refl, (refl, tt)))) refl (one_passed, ((λ i attempts w. refl), tt))
      (λ i attempts w. refl)

llm_review-Spares_example :
    get
      (Breaker.review table ℕ key circuit converse clock true 3 100 true
        (entry "one" ∷ entry "three" ∷ [])
        (start no_rows)).1.health
      "three"
    ≡ none
unfolding get
llm_review-Spares_example =
    llm_review-Spares table ℕ key circuit converse clock true 3 100 true "three"
      (entry "one" ∷ entry "three" ∷ []) (start no_rows)
      (inl refl, (inr (λ i attempts w. refl), tt))

-- an attempt that ended as a success
abbrev done : DurableAttempt
done = record {
  provider = "three";
  model = "m";
  status = completed;
  outcome = some FailureClassifier.success;
  error_message = none;
  iterations_used = some 2;
  max_iterations = some 8;
  prompt_tokens = some 10;
  completion_tokens = some 5;
}

abbrev one_row : Rows
one_row k = if k == "" then some done else none

llm_review-stored_example :
    let (result, after) =
      Resumed.review table ℕ key circuit converse clock true 3 100
        (entry "three" ∷ [])
        (start one_row) in
    (is_reviewed result ≡ false) × (after.world ≡ 0) × ((after.health ≡ []))
unfolding strokes
llm_review-stored_example =
    llm_review-stored table ℕ key circuit converse clock true 3 100 (entry "three" ∷ [])
      (start one_row) ((done, refl), tt) refl
