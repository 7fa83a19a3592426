-- ===== src/Resolver.antt =====
-- internal/resolver: which venue a query names, through the cache of internal/store/cache.go.
pub mod Url
pub mod Slug
pub mod Resolve
pub mod Again
