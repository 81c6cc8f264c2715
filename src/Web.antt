-- ===== src/Web.antt =====
-- The pages of apps/web: the onboarding and the login with their keys, the payment pages, and the
-- dashboard with its scan, its withdrawals and its activities.
pub mod Withdrawals
pub mod Keys
pub mod Onboarding
pub mod Login
pub mod Payments
pub mod Usernames
pub mod Activity
pub mod Tests
