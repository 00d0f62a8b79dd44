-- ===== src/Api.antt =====
-- app/main.py: the order endpoints, on top of the caller's scope.
pub mod Orders
pub mod Catalog
pub mod Spa
pub mod Requests
pub mod Logged
