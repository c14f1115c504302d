-- ===== src/Collector/History/Rewards/Sums.antt =====
-- The snapshot of the rewards against the sums of the rewards that count.
use mathlib.Core.List.{foldl}
use braiins_pool_exporter.Base.{
  String, Bool, true, false, ◌≡◌, refl, sym, ◌∙◌, ap, fun_ext, List, [], ◌∷◌, ◌++◌, if◌then◌else◌,
  keep, ltb, length, Bool-cases, inl, inr, some,
}
use braiins_pool_exporter.Base.Result.{
  Result, ok, ◌>>=◌, >>=-eq-ok, ok-injective, fail_if-ok, >>=_assoc,
}
use braiins_pool_exporter.Base.Time.{Time}
use braiins_pool_exporter.Text.{Text, ◌==◌, contains, lookup, to_lower}
use braiins_pool_exporter.Braiins.Types.{CoinEnvelope, DailyReward, Decimal, RewardsResponse}
use braiins_pool_exporter.Collector.Distinct.{fresh, distinct, fresh-nil}
use braiins_pool_exporter.Collector.Pool.{option_or, option_or-ok}
use braiins_pool_exporter.Collector.History.Decimal.{Rat, rat_zero, rat_add, decimal_to_rat}
use braiins_pool_exporter.Collector.History.Window.{timestamp_in_window}
use braiins_pool_exporter.Collector.History.Rewards.{
  Component, Components, RewardSnapshot, same_component, max_reward_records, zero_reward_components,
  reward_timestamp, reward_dedup_key, reward_decimals, add_to, or_invalid, add_decimals,
  reward_loop, build_reward_snapshot,
}

-- The numbers that the decimals of one component spell, blank ones left out.
unfoldable pub values : Component → List (Component × Decimal) → Result String (List Rat)
values c [] = ok []
values c ((component, value) ∷ rest) =
    let others = values c rest in
    if value == []
    then others
    else (or_invalid (decimal_to_rat value) >>= λ parsed.
        others >>= λ rs. ok (if same_component c component then parsed ∷ rs else rs))

add_to_same :
    (components : Components) (k c : Component) (r : Rat)
    → same_component c k ≡ true
    → add_to components k r c ≡ rat_add (components c) r
unfolding add_to
add_to_same components k c r h = rw h

add_to_other :
    (components : Components) (k c : Component) (r : Rat)
    → same_component c k ≡ false
    → add_to components k r c ≡ components c
unfolding add_to
add_to_other components k c r h = rw h

add_decimals-values :
    (ds : List (Component × Decimal)) (components out : Components)
    → add_decimals ds components ≡ ok out
    → (c : Component)
    → (rs : List Rat) × (values c ds ≡ ok rs) × (out c ≡ foldl rat_add (components c) rs)
unfolding add_decimals values
add_decimals-values [] components out h c =
    ([], refl, ap (λ (f : Components). f c) (sym (ok-injective h)))
add_decimals-values ((component, value) ∷ ds) components out h c = elim (Bool-cases (value == [])) [
  | inl blank ↦
      let (rs, found, sum) = add_decimals-values ds components out (rw blank at h) c in
      (rs, rw (blank, found), sum)
  | inr filled ↦
      let (parsed, read, added) =
        >>=-eq-ok (or_invalid (decimal_to_rat value))
          (λ parsed. add_decimals ds (add_to components component parsed)) (rw filled at h) in
      let (rs, found, sum) =
        add_decimals-values ds (add_to components component parsed) out added c in
      elim (Bool-cases (same_component c component)) [
        | inl same ↦ (
          parsed ∷ rs,
          rw (filled, read, found, same),
          sum ∙ ap (λ x. foldl rat_add x rs) (add_to_same components component c parsed same),
        )
        | inr other ↦ (
          rs,
          rw (filled, read, found, other),
          sum ∙ ap (λ x. foldl rat_add x rs) (add_to_other components component c parsed other),
        )
      ]
]

add_decimals-append :
    (xs ys : List (Component × Decimal)) (components : Components)
    → add_decimals (xs ++ ys) components ≡ (add_decimals xs components >>= add_decimals ys)
unfolding add_decimals
add_decimals-append [] ys components = refl
add_decimals-append ((component, value) ∷ xs) ys components = elim (Bool-cases (value == [])) [
  | inl blank ↦ rw blank (add_decimals-append xs ys components)
  | inr filled ↦ rw filled (
      ap (λ next. or_invalid (decimal_to_rat value) >>= next)
        (fun_ext (λ r. add_decimals-append xs ys (add_to components component r)))
      ∙ sym (
          >>=_assoc (or_invalid (decimal_to_rat value))
            (λ r. add_decimals xs (add_to components component r)) (add_decimals ys)))
]

-- The decimals of some rewards, one after the other.
unfoldable pub decimals_of : List DailyReward → List (Component × Decimal)
decimals_of [] = []
decimals_of (r ∷ rs) = reward_decimals r ++ decimals_of rs

module _ (start end : Time) where
  abbrev pub in_window : DailyReward → Bool
  in_window r = timestamp_in_window (reward_timestamp r) start end

  reward_loop-decimals :
      (rewards : List DailyReward) (seen : List Text) (components : Components)
      → reward_loop start end rewards seen components
        ≡ add_decimals
            (decimals_of (fresh reward_dedup_key seen (keep in_window rewards)))
            components
  unfolding reward_loop fresh decimals_of
  reward_loop-decimals [] seen components = unfold add_decimals in refl
  reward_loop-decimals (r ∷ rs) seen components =
      let key = reward_dedup_key r in
      elim (Bool-cases (in_window r)) [
        | inr outside ↦ rw outside (reward_loop-decimals rs seen components)
        | inl inside ↦ elim (Bool-cases (contains seen key)) [
          | inl old ↦ rw (inside, old) (reward_loop-decimals rs seen components)
          | inr new ↦
              rw (inside, new)
                (ap (λ next. add_decimals (reward_decimals r) components >>= next)
                    (fun_ext (λ x. reward_loop-decimals rs (key ∷ seen) x))
                  ∙ sym (
                      add_decimals-append (reward_decimals r)
                        (decimals_of (fresh reward_dedup_key (key ∷ seen) (keep in_window rs)))
                        components))
        ]
      ]

  -- The rewards that count: those in the window, each key once.
  abbrev pub counted : List DailyReward → List DailyReward
  counted rewards = distinct reward_dedup_key (keep in_window rewards)

  -- In a snapshot that is built, every decimal of the counted rewards that is not blank spells a number,
  -- and each component is the exact sum of its numbers, from the first.
  pub build_reward_snapshot_exact :
      (fold : Text → Text) (coin : Text) (now : Time) (envelope : CoinEnvelope RewardsResponse)
      (snapshot : RewardSnapshot)
      → build_reward_snapshot start end fold coin now envelope ≡ ok snapshot
      → (response : RewardsResponse) × (lookup envelope (to_lower fold coin) ≡ some response)
        × ((c : Component)
            → (rs : List Rat) × (values c (decimals_of (counted response.daily_rewards)) ≡ ok rs)
              × (snapshot.components c ≡ foldl rat_add rat_zero rs))
  unfolding build_reward_snapshot
  build_reward_snapshot_exact fold coin now envelope snapshot h =
      let (response, found, h1) =
        >>=-eq-ok
          (option_or "Braiins rewards response missing configured coin"
            (lookup envelope (to_lower fold coin)))
          _ h in
      let (few, h2) =
        fail_if-ok (ltb max_reward_records (length response.daily_rewards))
          "Braiins rewards response exceeds record limit" _ h1 in
      let (out, added, h3) =
        >>=-eq-ok (reward_loop start end response.daily_rewards [] zero_reward_components) _ h2 in
      let path =
        sym (reward_loop-decimals response.daily_rewards [] zero_reward_components) ∙ added in
      let all = rw (fresh-nil reward_dedup_key (keep in_window response.daily_rewards)) at path in
      let same : ◌≡◌ {A = RewardSnapshot} (record { collected_at = now; components = out })
          snapshot =
        ok-injective h3 in
      (
        response,
        option_or-ok _ _ found,
        rw (← same) (add_decimals-values _ zero_reward_components out all),
      )
