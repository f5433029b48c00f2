-- ===== src/FailureClassifier.antt =====
-- The outcome of one attempt with a provider: src/lib/failureClassifier.ts, whose test of an error is repeated in
-- src/services/reviewService.ts. A thrown value is read through the properties that the code looks at.
pub mod Rules
mod Tests
use Prim.Native.Char.{Char, code}
use dragnet.Prelude.{
  ℕ, String, Bool, true, false, ◌&&◌, ◌||◌, not, Option, none, some, List, [], ◌∷◌, any, eqb, leb,
  ◌==◌, is_some, if◌then◌else◌,
}
use dragnet.Prelude.Dict.{has}
use dragnet.Prelude.Text.{lower_case}

-- what is read of a thrown value; `status` is none where it is no finite number
pub record ProviderError : Type 0 where
  pub status : Option ℕ
  pub code : String
  pub name : String
  pub message : String

pub data OutcomeClass : Type 0 where
  success quality_failure transport_failure interrupted unknown_failure : OutcomeClass

pub record ClassifyInput : Type 0 where
  pub error : Option ProviderError
  pub submit_review_called : Bool
  pub rating : Option ℕ
  pub iterations_used : ℕ
  pub max_iterations : ℕ
  pub malformed_streak : ℕ
  pub is_interrupted : Bool
  pub refusal_detected : Bool
  pub empty_findings : Bool

abbrev pub malformed_streak_threshold : ℕ
malformed_streak_threshold = 3

-- `\w` on a text in lower case
is_word : Char → Bool
is_word c =
    let n = code c in
    (leb 48 n && leb n 57) || (leb 97 n && leb n 122) || (leb 65 n && leb n 90) || eqb n 95

-- `\b` after what was matched: the rest begins with no word character
abbrev ends_word : Option String → Bool
unfolding is_word
ends_word none = false
ends_word (some String.[]) = true
ends_word (some (String.◌∷◌ c s)) = not (is_word c)

-- the rest of a text after a part at its front
after_part : String → String → Option String
after_part String.[] s = some s
after_part (String.◌∷◌ c part) String.[] = none
after_part (String.◌∷◌ c part) (String.◌∷◌ d s) =
    let rest = after_part part s in if eqb (code c) (code d) then rest else none

-- one of the parts stands somewhere between word boundaries; `inside` is true after a word character
has_word : List String → Bool → String → Bool
unfolding is_word ends_word after_part
has_word parts inside String.[] = false
has_word parts inside (String.◌∷◌ c s) =
    (not inside && any (λ part. ends_word (after_part part (String.◌∷◌ c s))) parts)
    || has_word parts (is_word c) s

abbrev network_words : List String
network_words =
    "429" ∷ "rate limit" ∷ "timeout" ∷ "timed out" ∷ "aborted" ∷ "connection error"
    ∷ "connection lost" ∷ "connection closed" ∷ "connection reset" ∷ "connection refused"
    ∷ "network" ∷ "socket" ∷ "fetch failed" ∷ []

abbrev network_codes : List String
network_codes =
    "ECONNABORTED" ∷ "ECONNREFUSED" ∷ "ECONNRESET" ∷ "ENETDOWN" ∷ "ENETUNREACH" ∷ "ETIMEDOUT"
    ∷ "EAI_AGAIN" ∷ "ENOTFOUND" ∷ []

unfoldable pub is_retryable_status : ℕ → Bool
is_retryable_status status =
    eqb status 408 || eqb status 409 || eqb status 425 || eqb status 429 || leb 500 status

-- a status decides alone
unfoldable pub is_retryable_error : Option ProviderError → Bool
unfolding is_retryable_status has_word
is_retryable_error none = false
is_retryable_error (some err) = elim err.status [
  | some status ↦ is_retryable_status status
  | none ↦ has network_codes err.code || has_word network_words false (lower_case err.message)
]

abbrev pub is_abort_error : Option ProviderError → Bool
is_abort_error none = false
is_abort_error (some err) = err.name == "AbortError"

unfoldable pub classify_provider_outcome : ClassifyInput → OutcomeClass
classify_provider_outcome input =
    if input.is_interrupted || is_abort_error input.error
    then interrupted
    else if is_some input.error
    then (if is_retryable_error input.error then transport_failure else unknown_failure)
    else if leb malformed_streak_threshold input.malformed_streak
    then quality_failure
    else if not input.submit_review_called
    then quality_failure
    else if input.refusal_detected
    then quality_failure
    else if input.empty_findings
    then quality_failure
    else if is_some input.rating
    then success
    else unknown_failure
