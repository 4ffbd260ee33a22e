-- ===== src/Core/OrderBook.antt =====
-- include/core/OrderBook.hpp and src/core/OrderBook.cpp: the book of one symbol.
pub mod State
pub mod Log
pub mod Liquidity
pub mod Matching
pub mod Place
pub mod Cancel
pub mod Numbering
