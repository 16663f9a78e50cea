-- ===== src/Binance/Defaults.antt =====
-- What the settings of BinanceData leave of its URI.
use btrader.Prelude.{ℕ, ◌≡◌, refl, sym, subst, true, List, some, if_true}
use btrader.Json.{absent, Leaves, apply_entry-Leaves, Entry}
use btrader.Binance.Data.{BinanceData}
use btrader.Binance.Streams.{set_default_streams}
use btrader.Binance.Connection.{Extra, set_stream_uri, parse_extra, setup}

-- A property of what the entries after the first do not set.
abbrev pub About {ℓ} : (List ℕ → ℕ → Type ℓ) → BinanceData → Type ℓ
About Q s = Q s.uri s.current_reconnect_attempts

pub parse_extra-Leaves {ℓ} :
    (Q : List ℕ → ℕ → Type ℓ) (j : Extra) (s : BinanceData)
    → Leaves (About Q) (set_stream_uri j.stream_uri s)
    → Leaves (About Q) (parse_extra j s)
unfolding parse_extra
parse_extra-Leaves Q j s h =
    apply_entry-Leaves (About Q) j.max_reconnect_attempts _ _ (λ n t k. k)
      (apply_entry-Leaves (About Q) j.reconnect_interval_ms _ _ (λ n t k. k)
        (apply_entry-Leaves (About Q) j.depth_levels _ _ (λ n t k. k)
          (apply_entry-Leaves (About Q) j.kline_interval _ _ (λ n t k. k)
            (apply_entry-Leaves (About Q) j.enable_depth _ _ (λ n t k. k)
              (apply_entry-Leaves (About Q) j.enable_kline _ _ (λ n t k. k)
                (apply_entry-Leaves (About Q) j.symbol _ _ (λ n t k. k) h))))))

default_uri-Leaves :
    (e : Entry (List ℕ)) (s : BinanceData)
    → e ≡ absent
    → Leaves (About (λ u n. u ≡ (set_default_streams s).uri)) (set_stream_uri e s)
unfolding set_stream_uri
default_uri-Leaves e s h =
    subst (λ e. Leaves (About (λ u n. u ≡ (set_default_streams s).uri)) (set_stream_uri e s))
      (sym h) (record { holds = refl })

-- Where the settings name no URI and no entry throws, the URI is that of the streams that the object
-- had before: the symbol, the interval, the levels and the switches that the settings name are not
-- in it.
pub setup-uri :
    (j : Extra) (s : BinanceData)
    → j.stream_uri ≡ absent
    → (parse_extra j s).1 ≡ true
    → (setup (some j) s).uri ≡ (set_default_streams s).uri
unfolding setup
setup-uri j s h complete =
    let p = parse_extra j s in
    subst (λ (x : BinanceData). x.uri ≡ (set_default_streams s).uri)
      (sym (if_true p.1 p.0 (set_default_streams p.0) complete))
      (parse_extra-Leaves (λ u n. u ≡ (set_default_streams s).uri) j s
        (default_uri-Leaves j.stream_uri s h)).holds
