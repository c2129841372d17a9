-- ===== src/Tests.antt =====
-- Runs at concrete inputs, and each theorem with hypotheses at an input that meets them.
mod Book
mod Paper
mod Market
mod Services
mod Feeds
mod Adapters
mod Storage
mod Exchange
