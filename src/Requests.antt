-- ===== src/Requests.antt =====
-- Payment requests: apps/gateway/src/routes/requests.ts.
pub mod Slug
pub mod Row
pub mod Routes
mod Tests
