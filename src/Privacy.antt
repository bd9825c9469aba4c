-- ===== src/Privacy.antt =====
-- packages/privacy-profiles/index.mjs: the regional profiles and `applyPrivacyProfile`. Of a profile
-- its id and its actions are modelled; the region, the regulations and the transfer note are texts
-- that no code reads.
pub mod Strength
mod Tests
use haechi.Prelude.{
  String, Bool, true, false, Option, none, some, List, [], ◌∷◌, str_eq, if◌then◌else◌, or_default,
  Dict, lookup, insert, Result, ok, err, ◌>>=◌, or_throw, ltb,
}
use haechi.Policy.Actions.{strength, lt_number, is_truthy}
use haechi.Policy.{PolicySource, PolicyError, unknown_privacy_profile}

pub record PrivacyProfile : Type 0 where
  pub id : String
  pub actions : Dict String

abbrev kr_pipa : PrivacyProfile
kr_pipa = record {
  id = "kr-pipa";
  actions =
      ("kr_rrn", "block")
      ∷ ("phone", "mask")
      ∷ ("email", "redact")
      ∷ ("card", "block")
      ∷ ("api_key", "block")
      ∷ ("secret", "block")
      ∷ ("jp_mynumber", "block")
      ∷ [];
}

abbrev eu_gdpr : PrivacyProfile
eu_gdpr = record {
  id = "eu-gdpr";
  actions =
      ("email", "tokenize")
      ∷ ("phone", "mask")
      ∷ ("card", "block")
      ∷ ("api_key", "block")
      ∷ ("secret", "block")
      ∷ ("kr_rrn", "block")
      ∷ ("fr_nir", "block")
      ∷ ("es_dni", "block")
      ∷ ("uk_nino", "block")
      ∷ ("it_codice_fiscale", "block")
      ∷ ("de_steuer_id", "block")
      ∷ ("nl_bsn", "block")
      ∷ ("jp_mynumber", "block")
      ∷ [];
}

abbrev asia_pdpa : PrivacyProfile
asia_pdpa = record {
  id = "asia-pdpa";
  actions =
      ("sg_nric", "block")
      ∷ ("in_aadhaar", "block")
      ∷ ("jp_mynumber", "block")
      ∷ ("kr_rrn", "block")
      ∷ ("fr_nir", "block")
      ∷ ("es_dni", "block")
      ∷ ("it_codice_fiscale", "block")
      ∷ ("de_steuer_id", "block")
      ∷ ("nl_bsn", "block")
      ∷ ("phone", "mask")
      ∷ ("email", "redact")
      ∷ ("card", "block")
      ∷ ("api_key", "block")
      ∷ ("secret", "block")
      ∷ [];
}

abbrev us_general : PrivacyProfile
us_general = record {
  id = "us-general";
  actions =
      ("email", "redact")
      ∷ ("phone", "mask")
      ∷ ("card", "block")
      ∷ ("api_key", "block")
      ∷ ("secret", "block")
      ∷ ("jp_mynumber", "block")
      ∷ [];
}

abbrev jp_appi : PrivacyProfile
jp_appi = record {
  id = "jp-appi";
  actions =
      ("jp_mynumber", "block")
      ∷ ("phone", "mask")
      ∷ ("email", "redact")
      ∷ ("card", "block")
      ∷ ("api_key", "block")
      ∷ ("secret", "block")
      ∷ ("kr_rrn", "block")
      ∷ [];
}

-- `PROFILES`
unfoldable pub privacy_profiles : Dict PrivacyProfile
privacy_profiles =
    ("kr-pipa", kr_pipa)
    ∷ ("eu-gdpr", eu_gdpr)
    ∷ ("asia-pdpa", asia_pdpa)
    ∷ ("us-general", us_general)
    ∷ ("jp-appi", jp_appi)
    ∷ []

unfoldable pub get_privacy_profile : String → Result PolicyError PrivacyProfile
get_privacy_profile id = or_throw (lookup id privacy_profiles) (unknown_privacy_profile id)

-- `!existing || ACTION_STRENGTH[action] > ACTION_STRENGTH[existing]`
abbrev pub yields_to : Option String → String → Bool
yields_to none action = true
yields_to (some existing) action =
    if str_eq existing "" then true else lt_number (strength existing) (strength action)

-- The loop over the profile's actions.
unfoldable pub strengthen : Dict String → Dict String → Dict String
strengthen actions [] = actions
strengthen actions ((type, action) ∷ rest) =
    strengthen
      (if yields_to (lookup type actions) action then insert type action actions else actions) rest

pub record Applied : Type 0 where
  pub source : PolicySource
  pub privacy_profile : String

unfoldable pub apply_privacy_profile : PolicySource → String → Result PolicyError Applied
unfolding get_privacy_profile strengthen
apply_privacy_profile policy id = do
  profile ← get_privacy_profile id
  ok (record {
    source = record policy {
      actions = some (strengthen (or_default policy.actions []) profile.actions);
    };
    privacy_profile = profile.id;
  })
