-- ===== src/Braiins/Types/Decode/Laws.antt =====
-- What a decoded number and a decoded profile hold.
use braiins_pool_exporter.Base.{
  String, ◌≡◌, refl, ◌≢◌, ◌⊎◌, inl, inr, sym, true, false, ◌||◌, [], ◌∷◌, Option, none, some,
  or-false, Bool-cases,
}
use braiins_pool_exporter.Base.Result.{Result, ok, err}
use braiins_pool_exporter.Text.{Text, Map, codes, ◌==◌, has_prefix, trim_space, lookup}
use braiins_pool_exporter.Text.Laws.{==_iff, is_not}
use braiins_pool_exporter.Braiins.Types.{Decimal, Profile, ProfileResponse}
use braiins_pool_exporter.Braiins.Types.Decode.{
  Json, not_blank, with_username, with_coin, unmarshal_decimal, profile_fields,
}

module _ (json : Json) where
  -- It is what a JSON string holds, and holds more than white space, or the text of a number.
  abbrev pub IsSpelled : Text → Decimal → Type 0
  IsSpelled bytes d =
      ((json.decode_string bytes ≡ some d) × (trim_space d ≢ []))
      ⊎ ((json.is_number (trim_space bytes) ≡ true) × (d ≡ trim_space bytes))

  not_blank-ok :
      (bytes : Text) (o : Option Text) (d : Decimal)
      → json.decode_string bytes ≡ o
      → not_blank json o ≡ ok d
      → IsSpelled bytes d
  not_blank-ok bytes none d e h = cc
  not_blank-ok bytes (some value) d e h = elim (Bool-cases (trim_space value == [])) [
    | inl blank ↦
        let failed : ◌≡◌ {A = Result String Decimal} (err "decimal string is empty") (ok d) =
          rw blank at h in
        cc
    | inr full ↦
        let same : ◌≡◌ {A = Result String Decimal} (ok value) (ok d) = rw full at h in
        let equal : value ≡ d = cc in inl (rw (← equal) (e, is_not (trim_space value) [] full))
  ]

  -- A number is decoded from a text that is neither blank nor null, from a JSON string that holds more
  -- than white space or from the text of a JSON number.
  pub unmarshal_decimal-IsSpelled :
      (bytes : Text) (d : Decimal)
      → unmarshal_decimal json bytes ≡ ok d
      → (trim_space bytes ≢ []) × (trim_space bytes ≢ codes "null") × IsSpelled bytes d
  unfolding unmarshal_decimal
  unmarshal_decimal-IsSpelled bytes d h =
      let text = trim_space bytes in
      elim (Bool-cases (text == [] || text == codes "null")) [
        | inl missing ↦
            let failed : ◌≡◌ {A = Result String Decimal} (err "decimal value is required") (ok d) =
              rw (missing, unmarshal_decimal) at h in
            cc
        | inr given ↦
            let (full, other) = or-false (text == []) (text == codes "null") given in
            (
              is_not text [] full,
              is_not text (codes "null") other,
              elim (Bool-cases (has_prefix text (b'"' ∷ []))) [
                | inl quoted ↦
                    not_blank-ok bytes (json.decode_string bytes) d refl (rw (given, quoted) at h)
                | inr bare ↦ elim (Bool-cases (json.is_number text)) [
                  | inl number ↦
                      let same : ◌≡◌ {A = Result String Decimal} (ok text) (ok d) =
                        rw (given, bare, number) at h in
                      inr (number, cc)
                  | inr word ↦
                      let failed : ◌≡◌ {A = Result String Decimal}
                          (err "decimal must be encoded as a JSON string or number") (ok d) =
                        rw (given, bare, word) at h in
                      cc
                ]
              ],
            )
      ]

  -- A field that is not the user's name has the profile that its text is decoded to.
  abbrev pub found : Option Text → Option Profile
  found none = none
  found (some value) = json.decode_profile value

  with_username-some :
      (o : Option Text) (r : Option ProfileResponse) (response : ProfileResponse)
      → with_username json o r ≡ some response
      → (rest : ProfileResponse) × (r ≡ some rest) × (response.coins ≡ rest.coins)
  with_username-some none r response h = cc
  with_username-some (some name) none response h = cc
  with_username-some (some name) (some rest) response h =
      let same : record rest { username = name } ≡ response = cc in (rest, refl, rw (← same) refl)

  with_coin-some :
      (key : Text) (o : Option Profile) (r : Option ProfileResponse) (response : ProfileResponse)
      → with_coin json key o r ≡ some response
      → (profile : Profile) × (rest : ProfileResponse) × (o ≡ some profile)
        × (r ≡ some rest)
        × (response.coins ≡ (key, profile) ∷ rest.coins)
  with_coin-some key none r response h = cc
  with_coin-some key (some profile) none response h = cc
  with_coin-some key (some profile) (some rest) response h =
      let same : record rest { coins = (key, profile) ∷ rest.coins } ≡ response = cc in
      (profile, rest, refl, refl, rw (← same) refl)

  name_differs :
      (key name : Text)
      → (key == codes "username") ≡ false
      → (name == codes "username") ≡ true
      → (key == name) ≡ false
  name_differs key name other user = rw ((==_iff name (codes "username")).0 user) other

  -- A response that is decoded from the fields of an object holds for each key but the user's name the
  -- profile that the text of its field is decoded to, and none for a key that is no field.
  pub profile_fields-lookup :
      (fields : Map Text) (response : ProfileResponse) (key : Text)
      → profile_fields json fields ≡ some response
      → (key == codes "username") ≡ false
      → lookup response.coins key ≡ found (lookup fields key)
  unfolding profile_fields lookup
  profile_fields-lookup [] response key h other =
      let same : record { username = []; coins = [] } ≡ response = cc in rw (← same) refl
  profile_fields-lookup ((name, value) ∷ fields) response key h other =
      elim (Bool-cases (name == codes "username")) [
        | inl user ↦
            let (rest, made, coins) =
              with_username-some (json.decode_string value) _ response (rw user at h) in
            rw (coins, name_differs key name other user)
              (profile_fields-lookup fields rest key made other)
        | inr coin ↦
            let (profile, rest, decoded, made, coins) =
              with_coin-some name (json.decode_profile value) _ response (rw coin at h) in
            let later = profile_fields-lookup fields rest key made other in
            elim (Bool-cases (key == name)) [
              | inl here ↦ rw (coins, lookup, here) (sym decoded)
              | inr there ↦ rw (coins, lookup, there) later
            ]
      ]
