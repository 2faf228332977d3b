-- ===== src/Membership.antt =====
-- Who is let into a game server, and who administers it: the users that HOGS wants there, and the
-- reconcilers of the control plane, api/whitelist_reconciler.go and api/admin_reconciler.go.
pub mod Identity
pub mod Whitelist
pub mod File
pub mod Server
