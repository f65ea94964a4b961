-- ===== src/Auth.antt =====
-- Who may enter which page: apps/web/src/lib/auth-guard.ts, apps/web/src/lib/auth.tsx,
-- apps/web/src/hooks/use-session-user.ts and apps/web/src/routes/auth.callback.tsx.
pub mod Roles
pub mod Token
pub mod Resolve
pub mod Guard
pub mod Views
pub mod Laws
pub mod Waiting
pub mod Redirects
pub mod Agreement
pub mod SelfRole
pub mod Navigation
mod Tests
