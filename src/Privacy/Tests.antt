-- ===== src/Privacy/Tests.antt =====
-- A privacy profile applied to a configuration.
use haechi.Prelude.{max, String, ◌≡◌, refl, none, some, [], ◌∷◌, lookup, insert, or_default, ok}
use haechi.Policy.Actions.{action_of}
use haechi.Policy.{PolicySource}
use haechi.Policy.Merge.{strength_at, demand}
use haechi.Privacy.{
  PrivacyProfile, Applied, privacy_profiles, get_privacy_profile, apply_privacy_profile,
}
use haechi.Privacy.Strength.{apply_privacy_profile-strength}

-- Email is stricter than the profile asks, phone weaker.
abbrev configured : PolicySource
configured = record {
  presets = none;
  mode = none;
  default_action = none;
  actions = some (("email", "block") ∷ ("phone", "allow") ∷ []);
  allow_unsafe_overrides = none;
}

abbrev general : Applied
general = record {
  source = record configured {
    actions = some (
        ("email", "block")
        ∷ ("phone", "mask")
        ∷ ("card", "block")
        ∷ ("api_key", "block")
        ∷ ("secret", "block")
        ∷ ("jp_mynumber", "block")
        ∷ []);
  };
  privacy_profile = "us-general";
}

general_applied : apply_privacy_profile configured "us-general" ≡ ok general
unfolding apply_privacy_profile privacy_profiles action_of lookup insert
general_applied = refl

apply_privacy_profile-strength_example :
    (p : PrivacyProfile) × (get_privacy_profile "us-general" ≡ ok p)
    × ((k : String)
        → strength_at k (or_default general.source.actions [])
          ≡ max (strength_at k (or_default configured.actions [])) (demand k p.actions))
    × (strength_at "jp_mynumber" (or_default general.source.actions []) ≡ 3)
unfolding action_of
apply_privacy_profile-strength_example =
    apply_privacy_profile-strength configured "us-general" general (refl, (refl, tt))
      general_applied
