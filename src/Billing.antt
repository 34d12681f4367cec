-- ===== src/Billing.antt =====
-- Tariffs, wallets, payments and invoices (backend/src/evagg/billing).
pub mod Wallet
pub mod WalletRoutes
pub mod Sessions
pub mod Promotions
pub mod Pricing
pub mod Versions
pub mod Invoices
pub mod Tariffs
pub mod TariffRoutes
pub mod Payouts
