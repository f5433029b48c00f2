-- ===== src/ProviderHealth/Store.antt =====
-- The records of different providers in one health file do not disturb one another.
use dragnet.Prelude.{ℕ, String, true, false, Option, none, some, ◌≡◌, refl, arith, ◌==◌, eq_refl}
use dragnet.Prelude.Dict
use dragnet.Prelude.Dict.{Dict, get-set, get-delete}
use dragnet.ProviderHealth.{
  closed, Health, name_preset, decide_state, record_quality_failure, record_success,
  record_provider_quality_failure, record_provider_success, get_provider_health,
  reset_provider_health,
}

decide_state-name_preset :
    (preset : Option String) (h : Health) (now : ℕ)
    → decide_state (some (name_preset preset h)) now ≡ decide_state (some h) now
unfolding decide_state
decide_state-name_preset none h now = refl
decide_state-name_preset (some name) h now = ground arith

module _ (file : Dict Health) (key other : String) (preset : Option String)
    (now threshold cooldown_ms later : ℕ) where
  -- Recording an outcome of one provider, or resetting it, leaves the state of every other provider
  -- as it was.
  pub get_provider_health-other :
      (key == other) ≡ false
      → (get_provider_health true other later
            (record_provider_quality_failure true key preset now threshold cooldown_ms file)
          ≡ get_provider_health true other later file)
        × (get_provider_health true other later (record_provider_success true key preset now file)
            ≡ get_provider_health true other later file)
        × (get_provider_health true other later (reset_provider_health true (some key) file)
            ≡ get_provider_health true other later file)
  unfolding record_provider_quality_failure record_provider_success get_provider_health
      reset_provider_health
  get_provider_health-other ne = (simp (get-set, ne), simp (get-set, ne), simp (get-delete, ne))

  -- A success or a reset makes the provider's circuit closed at every later reading; a quality failure
  -- leaves the state that the pure transition of the stored record gives.
  pub get_provider_health_self :
      ((get_provider_health true key later (record_provider_success true key preset now file)).0
        ≡ closed)
      × ((get_provider_health true key later (reset_provider_health true (some key) file)).0
          ≡ closed)
      × ((get_provider_health true key later
            (record_provider_quality_failure true key preset now threshold cooldown_ms file)).0
          ≡ decide_state
              (some (record_quality_failure (Dict.get file key) now threshold cooldown_ms))
              later)
  unfolding record_provider_quality_failure record_provider_success get_provider_health
      reset_provider_health
  get_provider_health_self = (
    simp (get-set, eq_refl, decide_state-name_preset) (unfold decide_state record_success in refl),
    simp (get-delete, eq_refl) (unfold decide_state in refl),
    simp (get-set, eq_refl, decide_state-name_preset),
  )
