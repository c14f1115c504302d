-- ===== src/Braiins/Types/Decode.antt =====
-- internal/braiins/types.go: the `UnmarshalJSON` methods, over what encoding/json makes of a text.
pub mod Laws
pub mod Tests
use braiins_pool_exporter.Base.{
  String, Bool, true, false, not, ◌||◌, List, [], ◌∷◌, Option, none, some, if◌then◌else◌,
}
use braiins_pool_exporter.Base.Result.{Result, ok, err}
use braiins_pool_exporter.Text.{Text, Map, codes, ◌==◌, has_prefix, trim_space}
use braiins_pool_exporter.Braiins.Types.{Decimal, SharePrice, Profile, ProfileResponse}

-- `json.Unmarshal` of the texts that the methods meet. `is_number` is `isJSONNumber`, which asks it too;
-- `decode_fields` finds the fields of an object with their texts, and `decode_price` the fields of a
-- `SharePrice`. The texts of its errors are not looked at.
pub record Json : Type 0 where
  pub decode_string : Text → Option Text
  pub is_number : Text → Bool
  pub decode_fields : Text → Option (Map Text)
  pub decode_profile : Text → Option Profile
  pub decode_price : Text → Option SharePrice

module _ (json : Json) where
  open json use {decode_string, is_number, decode_fields, decode_profile, decode_price}

  abbrev not_blank : Option Text → Result String Decimal
  not_blank none = err "json"
  not_blank (some value) =
      if trim_space value == [] then err "decimal string is empty" else ok value

  -- `Decimal.UnmarshalJSON`
  unfoldable pub unmarshal_decimal : Text → Result String Decimal
  unfolding trim_space has_prefix ◌==◌
  unmarshal_decimal bytes =
      let text = trim_space bytes in
      if text == [] || text == codes "null"
      then err "decimal value is required"
      else if has_prefix text (b'"' ∷ [])
      then not_blank (decode_string bytes)
      else if not (is_number text)
      then err "decimal must be encoded as a JSON string or number"
      else ok text

  -- `SharePrice.UnmarshalJSON`, with what the price held before.
  unfoldable pub unmarshal_share_price : SharePrice → Text → Option SharePrice
  unfolding unmarshal_decimal
  unmarshal_share_price before bytes = elim (unmarshal_decimal bytes) [
    | ok scalar ↦ some (record before { share_price = scalar })
    | err message ↦ decode_price bytes
  ]

  abbrev with_username : Option Text → Option ProfileResponse → Option ProfileResponse
  with_username none response = none
  with_username (some name) none = none
  with_username (some name) (some response) = some (record response { username = name })

  abbrev with_coin : Text → Option Profile → Option ProfileResponse → Option ProfileResponse
  with_coin key none response = none
  with_coin key (some profile) none = none
  with_coin key (some profile) (some response) =
      some (record response { coins = (key, profile) ∷ response.coins })

  -- The loop over the fields, whose order is not fixed.
  unfoldable pub profile_fields : Map Text → Option ProfileResponse
  unfolding ◌==◌
  profile_fields [] = some (record { username = []; coins = [] })
  profile_fields ((key, value) ∷ fields) =
      let rest = profile_fields fields in
      if key == codes "username"
      then with_username (decode_string value) rest
      else with_coin key (decode_profile value) rest

  abbrev of_fields : Option (Map Text) → Option ProfileResponse
  of_fields none = none
  of_fields (some fields) = profile_fields fields

  -- `ProfileResponse.UnmarshalJSON`
  unfoldable pub unmarshal_profile : Text → Option ProfileResponse
  unfolding profile_fields
  unmarshal_profile bytes = of_fields (decode_fields bytes)
