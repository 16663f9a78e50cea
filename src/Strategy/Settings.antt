-- ===== src/Strategy/Settings.antt =====
-- ConsecutiveBarStrategy::setup. The entries that it looks up in the JSON are arguments: an entry is
-- absent, has another type than the one asked for, which throws, or is given.
use btrader.Prelude.{ℕ, Bool, true, ◌||◌, List, if◌then◌else◌}
use btrader.Prelude.Int.{ℤ, pos, ltb_ℤ}
use btrader.Double.{Double}
use btrader.Json.{Entry, apply_entry}
use btrader.Strategy.{Config, Strategy}

pub record Settings {ℓ} (D : Type ℓ) : Type ℓ where
  pub symbol : Entry (List ℕ)
  pub institution : Entry (List ℕ)
  pub account : Entry (List ℕ)
  pub min_bars : Entry ℤ
  pub max_position : Entry D
  pub stop_loss : Entry D
  pub take_profit : Entry D
  pub risk_per_trade : Entry D
  pub max_drawdown : Entry D
  pub enable_quote_trading : Entry Bool

module _ {ℓ} {D : Type ℓ} ⦃d : Double D⦄ where
  open d use {zero, mul, lt, le, literal}

  abbrev pub with_config : (Config D → Config D) → Strategy D → Strategy D
  with_config f s = record s { config = f s.config }

  unfoldable pub set_min_bars : ℤ → Config D → Config D
  set_min_bars n c = record c { min_bars = if ltb_ℤ n (pos 3) then pos 3 else n }

  unfoldable pub set_max_position : D → Config D → Config D
  set_max_position x c = record c { max_position = if le x zero then literal 1000 0 else x }

  -- The value, where it is above 0 and at most the limit, else the default.
  abbrev pub within_or : D → D → D → D
  within_or limit fallback x = if le x zero || lt limit x then fallback else x

  unfoldable pub set_stop_loss : D → Config D → Config D
  set_stop_loss x c = record c { stop_loss = within_or (literal 5 1) (literal 2 2) x }

  unfoldable pub set_take_profit : D → Config D → Config D
  set_take_profit x c = record c { take_profit = within_or (literal 5 1) (literal 3 2) x }

  unfoldable pub set_risk_per_trade : D → Config D → Config D
  set_risk_per_trade x c = record c { risk_per_trade = within_or (literal 1 1) (literal 1 2) x }

  unfoldable pub set_max_drawdown : D → Config D → Config D
  set_max_drawdown x c = record c { max_drawdown = within_or (literal 5 1) (literal 10 2) x }

  unfoldable pub set_enable_quote_trading : Bool → Config D → Config D
  set_enable_quote_trading b c = record c { enable_quote_trading = b }

  -- Only a stop below the profit is kept.
  unfoldable pub check_consistency : Config D → Config D
  check_consistency c = record c {
    stop_loss =
        if le c.take_profit c.stop_loss then mul c.take_profit (literal 8 1) else c.stop_loss;
  }

  unfoldable pub parse_entries : Settings D → Strategy D → Strategy D × Bool
  parse_entries j s =
      apply_entry j.enable_quote_trading (λ b. with_config (set_enable_quote_trading b))
        (apply_entry j.max_drawdown (λ x. with_config (set_max_drawdown x))
          (apply_entry j.risk_per_trade (λ x. with_config (set_risk_per_trade x))
            (apply_entry j.take_profit (λ x. with_config (set_take_profit x))
              (apply_entry j.stop_loss (λ x. with_config (set_stop_loss x))
                (apply_entry j.max_position (λ x. with_config (set_max_position x))
                  (apply_entry j.min_bars (λ n. with_config (set_min_bars n))
                    (apply_entry j.account (λ a s. record s { account = a })
                      (apply_entry j.institution (λ i s. record s { institution = i })
                        (apply_entry j.symbol (λ i s. record s { symbol = i }) (s, true))))))))))

  -- An entry that throws leaves what was parsed before it, and skips the rest.
  unfoldable pub setup : Settings D → Strategy D → Strategy D
  setup j s =
      let (parsed, complete) = parse_entries j s in
      if complete then with_config check_consistency parsed else parsed
