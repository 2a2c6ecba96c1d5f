-- ===== src/Order.antt =====
-- internal/service/order.go: orders, what paying one does, plan changes, and the order states.
pub mod Defs
pub mod Proration
pub mod Effect
pub mod Checkout
pub mod Change
pub mod States
pub mod Pending
pub mod Money
pub mod Closing
pub mod Settlement
pub mod Wallet
