-- ===== src/Delegation.antt =====
-- agentcreds-core/src/delegation/mod.rs: scopes, delegation tokens, minting, attenuation and
-- verification.
pub mod Scope
pub mod Token
pub mod Statements
pub mod Mint
pub mod Attenuate
pub mod Verify
pub mod Rooted
pub mod Visible
pub mod Permits
pub mod Issued
pub mod Narrowing
pub mod Gating
pub mod Anchoring
pub mod Lifetimes
