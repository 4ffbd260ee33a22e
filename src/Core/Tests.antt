-- ===== src/Core/Tests.antt =====
-- Concrete books, engines and commands, and the theorems of the core applied to them.
mod Book
mod Numbers
mod Commands
use exchange_engine.Base.{
  ℕ, ◌^◌, ◌-◌, Bool, true, false, ◌≡◌, refl, Option, none, some, List, [], ◌∷◌, ℤ, pos,
}
use exchange_engine.Core.FixedPoint.{Price, Quantity}
use exchange_engine.Core.Types.{
  Side, buy, sell, OrderType, limit, market, TimeInForce, gtc, ioc, po, SymbolConfig, Order,
  PlaceOrderCommand, CancelOrderCommand,
}
use exchange_engine.Core.Sequence.{initial}
use exchange_engine.Core.Level.{PriceLevel}
use exchange_engine.Core.Ladder.{RingPriceLadder}
use exchange_engine.Core.FarMap.{FarPriceMap}
use exchange_engine.Core.SideBook.{SideBook, Place, ring, far}
use exchange_engine.Core.OrderBook.State.{OrderBook}
use exchange_engine.Core.OrderBook.Place.{incoming_order}
use exchange_engine.Core.OrderBook.Matching.{Matching}

-- Ticks of 5 from 5 to 1000, lots of 1.
abbrev pub config : SymbolConfig
config = record {
  symbol_id = 1;
  base_asset_id = 1;
  quote_asset_id = 2;
  tick_size = pos 5;
  lot_size = 1;
  min_quantity = 1;
  max_quantity = 1000;
  min_price = pos 5;
  max_price = pos 1000;
  ring_capacity_ticks = 0;
  threshold_percentage = 0;
  initial_base_tick = pos 0;
  price_scale = 2;
  quantity_scale = 0;
  maker_fee_rate = 0;
  taker_fee_rate = 0;
  trading_enabled = true;
}

abbrev pub resting : ℕ → ℕ → Side → ℕ → Quantity → Order
resting order_id user_id side price quantity = record {
  order_id = order_id;
  client_order_id = 100;
  user_id = user_id;
  symbol_id = 1;
  side = side;
  price = pos price;
  original_quantity = quantity;
  remaining_quantity = quantity;
  sequence_accepted = 1;
}

-- A ladder with no slots: every level lies in the map.
abbrev pub no_ladder : Side → RingPriceLadder
no_ladder side = record {
  side = side;
  tick_size_ticks = pos 5;
  base_tick = pos 0;
  head_index = 0;
  capacity = 0;
  slots = [];
  active_slot_bitmap = [];
}

-- Two offers at 100, of 3 and of 4 lots, and one at 105 of 5.
abbrev pub offers : SideBook
offers = record {
  side = sell;
  ladder = no_ladder sell;
  far_map = record {
    side = sell;
    levels =
        (
          pos 100,
          record {
            price = pos 100;
            total_quantity = 7;
            orders = resting 7 1 sell 100 3 ∷ resting 8 2 sell 100 4 ∷ [];
            order_count = 2;
          },
        )
        ∷ (
          pos 105,
          record {
            price = pos 105;
            total_quantity = 5;
            orders = resting 9 1 sell 105 5 ∷ [];
            order_count = 1;
          },
        )
        ∷ [];
  };
  cached_best = some (far (pos 100));
}

abbrev pub no_bids : SideBook
no_bids = record {
  side = buy;
  ladder = no_ladder buy;
  far_map = record { side = buy; levels = [] };
  cached_best = none;
}

abbrev pub book : OrderBook
book = record {
  symbol_config = config;
  bids = no_bids;
  asks = offers;
  order_by_id =
      (7, (sell, far (pos 100))) ∷ (8, (sell, far (pos 100))) ∷ (9, (sell, far (pos 105))) ∷ [];
  client_order_id_to_order_id = (100, 7) ∷ [];
  last_trade_price = none;
}

-- A buy order of 5 lots at a limit.
abbrev pub bid : ℕ → OrderType → TimeInForce → ℕ → PlaceOrderCommand
bid command_id kind terms price = record {
  command_id = command_id;
  client_order_id = 200;
  order_id = 20;
  user_id = 3;
  symbol_id = 1;
  side = buy;
  order_type = kind;
  time_in_force = terms;
  price = pos price;
  quantity = 5;
  received_sequence = 1;
}

-- The book with a bid for 5 lots at 100 that is about to be matched.
abbrev pub crossing : Matching
crossing = record {
  book = book;
  incoming = incoming_order (bid 1 limit gtc 100) 1;
  log = ([], initial);
}

-- User 2 cancels order 8.
abbrev pub cancel_8 : CancelOrderCommand
cancel_8 = record {
  command_id = 3;
  user_id = 2;
  symbol_id = 1;
  order_id = 8;
  client_order_id = 0;
  received_sequence = 1;
}
