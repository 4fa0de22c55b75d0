-- ===== src/Evm.antt =====
-- internal/evm/forwarder.go: the receipts of EVM requests. Execute is JSON-RPC over HTTP, but for
-- the mock.
pub mod Receipts
pub mod Binding
