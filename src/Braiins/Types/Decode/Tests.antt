-- ===== src/Braiins/Types/Decode/Tests.antt =====
-- The decoding at concrete texts.
use braiins_pool_exporter.Base.{◌≡◌, refl, [], ◌∷◌, none, some, if◌then◌else◌}
use braiins_pool_exporter.Base.Int.{pos}
use braiins_pool_exporter.Base.Result.{ok}
use braiins_pool_exporter.Text.{Text, Map, codes, ◌==◌, has_prefix, trim_space, lookup}
use braiins_pool_exporter.Braiins.Types.{Profile, ProfileResponse}
use braiins_pool_exporter.Braiins.Types.Decode.{Json, unmarshal_decimal, profile_fields}
use braiins_pool_exporter.Braiins.Types.Decode.Laws.{found, profile_fields-lookup}

abbrev idle : Profile
idle = record {
  all_time_reward = [];
  hash_rate_unit = codes "Gh/s";
  hash_rate_5m = [];
  hash_rate_60m = [];
  hash_rate_24h = [];
  hash_rate_yesterday = [];
  low_workers = pos 0;
  off_workers = pos 0;
  ok_workers = pos 0;
  disabled_workers = pos 0;
  current_balance = [];
  today_reward = [];
  estimated_reward = [];
  shares_5m = [];
  shares_60m = [];
  shares_24h = [];
  shares_yesterday = [];
}

-- A decoder that knows a few texts.
abbrev json : Json
json = record {
  decode_string = λ s.
      if s == codes "\"1.5\""
      then some (codes "1.5")
      else if s == codes "\"ann\""
      then some (codes "ann")
      else none;
  is_number = λ s. s == codes "1e3";
  decode_fields = λ s. some ((codes "username", codes "\"ann\"") ∷ (codes "btc", codes "{}") ∷ []);
  decode_profile = λ s. if s == codes "{}" then some idle else none;
  decode_price = λ s. none;
}

decimal_run : unmarshal_decimal json (codes " 1e3 ") ≡ ok (codes "1e3")
unfolding unmarshal_decimal trim_space has_prefix ◌==◌
decimal_run = refl

quoted_run : unmarshal_decimal json (codes "\"1.5\"") ≡ ok (codes "1.5")
unfolding unmarshal_decimal trim_space has_prefix ◌==◌
quoted_run = refl

abbrev two_fields : Map Text
two_fields = (codes "username", codes "\"ann\"") ∷ (codes "btc", codes "{}") ∷ []

abbrev ann : ProfileResponse
ann = record { username = codes "ann"; coins = (codes "btc", idle) ∷ [] }

fields_run : profile_fields json two_fields ≡ some ann
unfolding profile_fields ◌==◌
fields_run = refl

profile_fields-lookup_example :
    lookup ann.coins (codes "btc") ≡ found json (lookup two_fields (codes "btc"))
unfolding ◌==◌
profile_fields-lookup_example =
    profile_fields-lookup json two_fields ann (codes "btc") fields_run refl
