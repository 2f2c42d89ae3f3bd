-- ===== src/OAuth.antt =====
-- The OAuth server's store and scopes (runonmine-oauth).
pub mod Tables
pub mod Scopes
pub mod ScopeText
pub mod Tokens
pub mod Rotation
pub mod Revocation
pub mod Clients
pub mod Authorizations
pub mod Consents
pub mod Guards
pub mod Replay
pub mod Codes
pub mod Bearers
pub mod Emergency
pub mod Families
pub mod Claims
pub mod Registration
pub mod Hashing
pub mod Requests
pub mod Service
pub mod Consenting
pub mod Callback
pub mod Access
pub mod Revoked
pub mod Decided
pub mod Began
