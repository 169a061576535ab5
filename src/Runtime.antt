-- ===== src/Runtime.antt =====
-- The runtime support library: src/runtime and src/result.
pub mod Guid
pub mod HResult
pub mod RefCount
pub mod WeakRefCount
pub mod HString
pub mod FactoryCache
pub mod Factory
