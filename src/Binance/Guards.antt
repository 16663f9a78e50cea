-- ===== src/Binance/Guards.antt =====
-- When BinanceData writes what a message says.
use btrader.Prelude.{
  ℕ, ◌≡◌, refl, subst, Bool, true, false, not, Option, none, some, List, both_branches, branches_by,
}
use btrader.Double.{Double}
use btrader.Types.{Bar}
use btrader.Types.Quotes.{Quote}
use btrader.Json.{Entry, absent, mistyped, given, Lookup, found, thrown, undefined, ◌>>=◌, value}
use btrader.Binance.Data.{BinanceData}
use btrader.Binance.Feed.{
  Kline, Item, Message, MdType, unknown, kline_type, depth_type, trade_type, Written, bar, quote,
  get_mdtype, validate_json_data, bar_from, Outcome, caught, written, closed_bar, kline_outcome,
  process_kline_data, depth_from, depth_outcome, process_depth_data, process, on_msg, kline_closed,
}

module _ {ℓ} {D : Type ℓ} where
  -- What must hold of a message for something to be written.
  unfoldable pub IsWarranted : BinanceData → Message → Written D → Type 0
  IsWarranted s m (bar b) =
      (s.enable_kline ≡ true) × ((k : Kline) × ((m.kline ≡ some k) × (k.x ≡ given true)))
  IsWarranted s m (quote q) =
      (s.enable_depth ≡ true)
      × ((bids : List Item) × (asks : List Item) × ((m.bids ≡ some bids) × (m.asks ≡ some asks)))

  unfoldable pub Permits : BinanceData → Message → Option (Written D) → Type 0
  Permits s m none = Unit
  Permits s m (some w) = IsWarranted s m w

  unfoldable pub Permitted : BinanceData → Message → Lookup (Bool × Option (Written D)) → Type 0
  Permitted s m (found o) = Permits s m o.1
  Permitted s m thrown = Unit
  Permitted s m undefined = Unit

  unfoldable pub Allowed : BinanceData → Message → Lookup (Option (Written D)) → Type 0
  Allowed s m (found w) = Permits s m w
  Allowed s m thrown = Unit
  Allowed s m undefined = Unit

  caught-Permitted :
      (s : BinanceData) (m : Message) (r : Lookup (Bool × Option (Written D)))
      → Permitted s m r
      → Permitted s m (caught r)
  unfolding Permitted Permits
  caught-Permitted s m (found o) h = h
  caught-Permitted s m thrown h = tt
  caught-Permitted s m undefined h = tt

  written-Permits :
      (s : BinanceData) (m : Message) (has_writer : Bool) (w : Written D)
      → IsWarranted s m w
      → Permits s m (written has_writer w).1
  unfolding Permits
  written-Permits s m true w h = h
  written-Permits s m false w h = tt

  -- The catch clauses and the last step of on_msg.
  outcome-Allowed :
      (s : BinanceData) (m : Message) (r : Lookup (Outcome D))
      → Permitted s m r
      → Allowed s m (do outcome ← r; found outcome.1)
  unfolding Permitted Allowed
  outcome-Allowed s m (found o) h = h
  outcome-Allowed s m thrown h = tt
  outcome-Allowed s m undefined h = tt

  bind-Permitted {κ} :
      {A : Type κ} (s : BinanceData) (m : Message) (r : Lookup A) (f : A → Lookup (Outcome D))
      → ((a : A) → Permitted s m (f a))
      → Permitted s m (r >>= f)
  unfolding Permitted
  bind-Permitted s m (found a) f h = h a
  bind-Permitted s m thrown f h = tt
  bind-Permitted s m undefined f h = tt

  -- A write at the end of a chain of lookups.
  write-Permitted {κ} :
      {A : Type κ} (s : BinanceData) (m : Message) (has_writer : Bool) (r : Lookup A)
      (w : A → Written D)
      → ((a : A) → IsWarranted s m (w a))
      → Permitted s m (do a ← r; found (written has_writer (w a)))
  unfolding Permitted
  write-Permitted s m has_writer (found a) w h = written-Permits s m has_writer (w a) (h a)
  write-Permitted s m has_writer thrown w h = tt
  write-Permitted s m has_writer undefined w h = tt

module _ {ℓ} {D : Type ℓ} ⦃d : Double D⦄ (stod : List ℕ → Option D) where
  closed-Permitted :
      (s : BinanceData) (m : Message) (has_writer : Bool) (memory : Bar D) (k : Kline)
      (x : Entry Bool)
      → s.enable_kline ≡ true
      → m.kline ≡ some k
      → k.x ≡ x
      → Permitted s m (do closed ← kline_closed x; closed_bar stod has_writer memory m k closed)
  unfolding Permitted Permits IsWarranted
  closed-Permitted s m has_writer memory k absent e mk kx = tt
  closed-Permitted s m has_writer memory k mistyped e mk kx = tt
  closed-Permitted s m has_writer memory k (given false) e mk kx = tt
  closed-Permitted s m has_writer memory k (given true) e mk kx =
      write-Permitted s m has_writer (bar_from stod memory m k) bar (λ a. (e, (k, (mk, kx))))

  kline-Permitted :
      (s : BinanceData) (m : Message) (has_writer : Bool) (memory : Bar D) (mk : Option Kline)
      → s.enable_kline ≡ true
      → m.kline ≡ mk
      → Permitted s m (caught (kline_outcome stod has_writer memory m mk))
  unfolding Permitted Permits
  kline-Permitted s m has_writer memory none e mk = tt
  kline-Permitted s m has_writer memory (some k) e mk =
      caught-Permitted s m _ (closed-Permitted s m has_writer memory k k.x e mk refl)

  depth-Permitted :
      (s : BinanceData) (m : Message) (has_writer : Bool) (memory : Quote D)
      (bids asks : Option (List Item))
      → s.enable_depth ≡ true
      → m.bids ≡ bids
      → m.asks ≡ asks
      → Permitted s m (caught (depth_outcome stod has_writer memory m bids asks))
  unfolding Permitted Permits IsWarranted
  depth-Permitted s m has_writer memory none asks e b a = tt
  depth-Permitted s m has_writer memory (some bids) none e b a = tt
  depth-Permitted s m has_writer memory (some bids) (some asks) e b a = caught-Permitted s m _ (
      bind-Permitted s m (value m.stream) _ (λ stream.
        write-Permitted s m has_writer (depth_from stod memory stream bids asks) quote
          (λ q. (e, (bids, asks, (b, a))))))

  process-Permitted :
      (has_writer : Bool) (memory_bar : Bar D) (memory_quote : Quote D) (s : BinanceData)
      (m : Message) (t : MdType)
      → Permitted s m (process stod has_writer memory_bar memory_quote s m t)
  unfolding process_kline_data process_depth_data Permitted Permits
  process-Permitted has_writer memory_bar memory_quote s m unknown = tt
  process-Permitted has_writer memory_bar memory_quote s m trade_type = tt
  process-Permitted has_writer memory_bar memory_quote s m kline_type =
      branches_by (Permitted s m) s.enable_kline
        (λ e.
          both_branches (Permitted s m) (not m.has_data) tt
            (kline-Permitted s m has_writer memory_bar m.kline e refl))
        (λ e. tt)
  process-Permitted has_writer memory_bar memory_quote s m depth_type =
      branches_by (Permitted s m) s.enable_depth
        (λ e.
          both_branches (Permitted s m) (not m.has_data) tt
            (depth-Permitted s m has_writer memory_quote m.bids m.asks e refl refl))
        (λ e. tt)

  on_msg-Allowed :
      (has_writer : Bool) (memory_bar : Bar D) (memory_quote : Quote D) (s : BinanceData)
      (m : Message)
      → Allowed s m (on_msg stod has_writer memory_bar memory_quote s m)
  unfolding on_msg Allowed Permits
  on_msg-Allowed has_writer memory_bar memory_quote s m =
      both_branches (Allowed s m) m.is_empty tt (
        both_branches (Allowed s m) (not m.is_json) tt (
          both_branches (Allowed s m) (not (validate_json_data m)) tt (
            outcome-Allowed s m _
              (process-Permitted has_writer memory_bar memory_quote s m (get_mdtype m)))))

  -- The service writes a bar only where klines are enabled and the message has a kline that is
  -- closed, and a quote only where depth is enabled and the message has bids and asks.
  pub on_msg-IsWarranted :
      (has_writer : Bool) (memory_bar : Bar D) (memory_quote : Quote D) (s : BinanceData)
      (m : Message) (w : Written D)
      → on_msg stod has_writer memory_bar memory_quote s m ≡ found (some w)
      → IsWarranted s m w
  unfolding Allowed Permits
  on_msg-IsWarranted has_writer memory_bar memory_quote s m w e =
      subst (Allowed s m) e (on_msg-Allowed has_writer memory_bar memory_quote s m)
