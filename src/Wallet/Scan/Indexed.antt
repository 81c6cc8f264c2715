-- ===== src/Wallet/Scan/Indexed.antt =====
-- The two scans of a deposit that the gateway's indexer stored.
use skaus.Prelude.Bytes.{Bytes}
