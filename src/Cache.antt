-- ===== src/Cache.antt =====
-- The `hooks.ts` files under frontend/src/features, on TanStack Query: what each query reads and under
-- which key, what each mutation sends and what it does to the cache.
pub mod Keys
mod Filters
pub mod Hooks
pub mod Queries
pub mod Mutations
pub mod Client
mod Tests
