-- ===== src/Costs.antt =====
-- backend/app/costs.py: token prices, the cost of queries and indexing, and budgets.
pub mod Price
pub mod Rounding
pub mod Rates
pub mod Prefix
pub mod Budget
pub mod Summary
mod Tests
