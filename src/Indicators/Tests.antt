-- ===== src/Indicators/Tests.antt =====
-- internal/indicators/indicators.go at concrete inputs.
use coinex_bot.Prelude.{ℕ, ◌≡◌, refl, List, [], ◌∷◌, ◌++◌, arith, map, bytes, All₂, IsPrefix}
use coinex_bot.Prelude.Results.{ok, Gives}
use coinex_bot.Prelude.Int.{ℤ, pos, ◌+ℤ◌, ◌-ℤ◌}
use coinex_bot.Number.Whole.{whole_decimal, whole_float, whole_convert, Whole-IsDecimal, quot}
use coinex_bot.Number.Sums.{sum_by}
use coinex_bot.Models.{Candle}
use coinex_bot.Indicators.{roll, sma}
use coinex_bot.Indicators.Windows.{mean, windows, sma-windows}
use coinex_bot.Indicators.Oscillators.{rsi}
use coinex_bot.Indicators.Bands.{donchian_channel}
use coinex_bot.Indicators.Channels.{IsChannelOf, donchian_channel-AreChannels}
use coinex_bot.Indicators.Causal.{rsi-IsPrefix}

sma-windows_example :
    sma (pos 2 ∷ pos 4 ∷ pos 6 ∷ []) 2
    ≡ ok (map (mean (pos 2)) (windows 2 (pos 2 ∷ pos 4 ∷ pos 6 ∷ [])))
sma-windows_example = sma-windows Whole-IsDecimal (pos 2 ∷ pos 4 ∷ pos 6 ∷ []) 2 (omega arith)

three_values : sma (pos 2 ∷ pos 4 ∷ pos 6 ∷ []) 2 ≡ ok (pos 3 ∷ pos 5 ∷ [])
unfolding sma roll sum_by quot ◌+ℤ◌ ◌-ℤ◌
three_values = refl

abbrev candle : ℕ → ℕ → Candle ℤ
candle low high = record {
  open_time = 0;
  open_price = pos low;
  high = pos high;
  low = pos low;
  close = pos high;
  volume = pos 1;
  timeframe = bytes "1hour";
}

abbrev history : List (Candle ℤ)
history = candle 2 4 ∷ candle 1 3 ∷ candle 5 9 ∷ []

donchian_channel-AreChannels_example :
    Gives (All₂ IsChannelOf (windows 2 history)) (donchian_channel history 2)
donchian_channel-AreChannels_example =
    donchian_channel-AreChannels Whole-IsDecimal history 2 (omega arith)

rsi-IsPrefix_example : IsPrefix {A = ℤ} (rsi history 2) (rsi (history ++ (candle 7 8 ∷ [])) 2)
rsi-IsPrefix_example = rsi-IsPrefix 2 history (candle 7 8 ∷ [])
