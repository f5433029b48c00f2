-- ===== src/ProviderHealth.antt =====
-- src/lib/providerHealth.ts: the circuit breaker of the LLM providers. The health file of
-- a repository is the dictionary that it holds; reading and writing it is not modelled (a write
-- that fails leaves the file as it was), nor is how a key is made of an endpoint and a model.
-- `now` is `Date.now()`.
pub mod Circuit
pub mod Store
mod Tests
use dragnet.Prelude.{
  ℕ, suc, ◌+◌, ◌*◌, String, Bool, true, false, Option, none, some, [], ltb, leb, ◌==◌,
  if◌then◌else◌,
}
use dragnet.Prelude.Dict
use dragnet.Prelude.Dict.{Dict}

pub data CircuitState : Type 0 where
  closed open_circuit half_open : CircuitState

pub record Health : Type 0 where
  pub consecutive_quality_failures : ℕ
  pub opened_at : Option ℕ
  pub cooldown_ends_at : Option ℕ
  pub state : CircuitState
  pub preset_name : Option String
  pub updated_at : ℕ

abbrev pub default_breaker_threshold : ℕ
default_breaker_threshold = 5

abbrev pub default_breaker_cooldown_ms : ℕ
default_breaker_cooldown_ms = 15 * 60 * 1000

-- `Math.floor` of the environment's number if that is finite and positive; `none` where it is not
-- a finite number
unfoldable pub get_breaker_threshold : Option ℕ → ℕ
get_breaker_threshold none = default_breaker_threshold
get_breaker_threshold (some v) = if ltb 0 v then v else default_breaker_threshold

unfoldable pub get_breaker_cooldown_ms : Option ℕ → ℕ
get_breaker_cooldown_ms none = default_breaker_cooldown_ms
get_breaker_cooldown_ms (some v) = if ltb 0 v then v else default_breaker_cooldown_ms

cooled_down : Option ℕ → ℕ → Bool
cooled_down none now = false
cooled_down (some ends) now = leb ends now

live_state : CircuitState → Option ℕ → ℕ → CircuitState
live_state open_circuit ends now = if cooled_down ends now then half_open else open_circuit
live_state closed ends now = closed
live_state half_open ends now = half_open

unfoldable pub decide_state : Option Health → ℕ → CircuitState
unfolding live_state cooled_down
decide_state none now = closed
decide_state (some health) now = live_state health.state health.cooldown_ends_at now

unfoldable pub fresh_health : ℕ → Health
fresh_health now = record {
  consecutive_quality_failures = 0;
  opened_at = none;
  cooldown_ends_at = none;
  state = closed;
  preset_name = none;
  updated_at = now;
}

-- `health ? { ...health } : freshHealth(now)`
abbrev pub copy_of : Option Health → ℕ → Health
unfolding fresh_health
copy_of none now = fresh_health now
copy_of (some health) now = health

abbrev pub failures_of : Option Health → ℕ
failures_of none = 0
failures_of (some health) = health.consecutive_quality_failures

-- the branches of `recordQualityFailure`, by the live state
failure_from : CircuitState → Option Health → ℕ → ℕ → ℕ → Health
failure_from half_open health now threshold cooldown_ms = record (copy_of health now) {
  updated_at = now;
  state = open_circuit;
  opened_at = some now;
  cooldown_ends_at = some (now + cooldown_ms);
  consecutive_quality_failures = threshold;
}
failure_from _ health now threshold cooldown_ms =
    let next : Health = record (copy_of health now) {
      updated_at = now;
      consecutive_quality_failures = failures_of health + 1;
    } in
    if leb threshold (failures_of health + 1)
    then record next {
      state = open_circuit;
      opened_at = some now;
      cooldown_ends_at = some (now + cooldown_ms);
    }
    else next

unfoldable pub record_quality_failure : Option Health → ℕ → ℕ → ℕ → Health
unfolding failure_from fresh_health decide_state
record_quality_failure health now threshold cooldown_ms =
    failure_from (decide_state health now) health now threshold cooldown_ms

unfoldable pub record_success : Option Health → ℕ → Health
unfolding fresh_health
record_success health now = record (copy_of health now) {
  updated_at = now;
  state = closed;
  consecutive_quality_failures = 0;
  opened_at = none;
  cooldown_ends_at = none;
}

-- `if (presetName) file.providers[key].presetName = presetName`
abbrev pub name_preset : Option String → Health → Health
name_preset none health = health
name_preset (some name) health =
    if name == "" then health else record health { preset_name = some name }

-- One health file; `located` is false where there is neither a path nor an id of a repository.
unfoldable pub record_provider_quality_failure :
    Bool → String → Option String → ℕ → ℕ → ℕ → Dict Health → Dict Health
record_provider_quality_failure located key preset now threshold cooldown_ms file =
    if located
    then Dict.set file key
        (name_preset preset (record_quality_failure (Dict.get file key) now threshold cooldown_ms))
    else file

unfoldable pub record_provider_success :
    Bool → String → Option String → ℕ → Dict Health → Dict Health
record_provider_success located key preset now file =
    if located
    then Dict.set file key (name_preset preset (record_success (Dict.get file key) now))
    else file

unfoldable pub get_provider_health : Bool → String → ℕ → Dict Health → CircuitState × Option Health
get_provider_health located key now file =
    if located then (decide_state (Dict.get file key) now, Dict.get file key) else (closed, none)

-- `key` is none where the endpoint or the model is missing: all records are dropped
unfoldable pub reset_provider_health : Bool → Option String → Dict Health → Dict Health
reset_provider_health located none file = if located then [] else file
reset_provider_health located (some key) file = if located then Dict.delete file key else file
