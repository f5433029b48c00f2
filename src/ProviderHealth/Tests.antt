-- ===== src/ProviderHealth/Tests.antt =====
-- The theorems on the breaker at concrete inputs.
use dragnet.Prelude.{◌<◌, ◌≡◌, ◌↔◌, refl, arith, none, some, [], ◌∷◌}
use dragnet.Prelude.Dict.{Dict}
use dragnet.ProviderHealth.{
  Health, closed, open_circuit, decide_state, record_quality_failure, record_success,
  get_breaker_threshold, get_breaker_cooldown_ms,
}
use dragnet.ProviderHealth.Circuit.{
  History, success, quality_failure, recorded, streak, decide_state-recorded,
}

abbrev history : History
history = (quality_failure, 30) ∷ (quality_failure, 20) ∷ (success, 10) ∷ (quality_failure, 5) ∷ []

decide_state-recorded_example :
    (decide_state (recorded 2 100 history) 40 ≡ closed) ↔ (streak history < 2)
decide_state-recorded_example = decide_state-recorded 2 100 history 40 (omega arith)

opened_by_two : decide_state (recorded 2 100 history) 40 ≡ open_circuit
unfolding recorded record_quality_failure record_success decide_state
opened_by_two = refl

abbrev file : Dict Health
file = []

default_threshold : get_breaker_threshold none ≡ 5
unfolding get_breaker_threshold
default_threshold = refl

default_cooldown : get_breaker_cooldown_ms (some 0) ≡ 900000
unfolding get_breaker_cooldown_ms
default_cooldown = refl
