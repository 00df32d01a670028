-- ===== src/Lib.antt =====
-- A model of the core of AgentCreds, the Rust crate agentcreds-core: an organization's trust anchor
-- issues a capability credential to an agent, the agent mints a delegation token from it, each
-- holder attenuates the token for the next, and a relying party verifies a request against the
-- token, the credential and the evidence of human approval.
--
-- Which file is about which code:
--
-- * The module Outcome: the error enum of agentcreds-core/src/error.rs and the chaining of results.
-- * Text and Codec: strings as bytes, prefixes, sets of strings, and the length-prefixed fields
--   that are hashed.
-- * The module Crypto: the hash, encoding and signature crates, as a parameter with their
--   documented laws.
-- * Did, Did/Laws: agentcreds-core/src/did.rs, keys, signing, `did:key` parsing, anchors,
--   delegation-key attestations.
-- * Gate, Action, Action/Bindings: gates of agentcreds-core/src/approval.rs and actions of
--   agentcreds-core/src/delegation/mod.rs with their request and approval bindings.
-- * Credential, Credential/Claims, Credential/Proofs: agentcreds-core/src/vc.rs,
--   `CapabilityClaims::validate`, `CapabilityCredential::issue` and `verify_at`.
-- * Signed, Approval and its children: agentcreds-core/src/signed.rs and approval.rs, directories,
--   evidence and one-time consumption.
-- * Datalog and Biscuit: what the code writes into Biscuit blocks, when a check holds, and the
--   biscuit-auth crate as a parameter with the laws that the code relies on.
-- * Delegation/Scope, Scope/Order: `Scope`, `is_subset_of` and `resource_within_authority`.
-- * Delegation/Token, Statements, Mint, Attenuate, Verify, Rooted: `DelegationToken` and its
--   `hydrate`, `mint`, `attenuate`, `verify_inner`, `verify_rooted_inner` and
--   `verify_rooted_gated_with_directory`, composed as the code composes them.
-- * Delegation/Visible, Permits, Issued, Narrowing, Gating, Anchoring, Lifetimes: the proofs about
--   tokens. `Issued` is the relation of the tokens that `mint` and any number of `attenuate`
--   produce, with the scope and expiry of each hop.
-- * Rotation, Rotation/Signatures, Rotation/Continuity, Rotation/Sealing:
--   agentcreds-core/src/rotation.rs, rotation statements, their signatures and the sealed key
--   history.
-- * Pop, Pop/Window: agentcreds-core/src/pop.rs, challenges, proofs of possession and
--   presentations; the largest age is not negative.
-- * Adr and its children: agentcreds-core/src/adr.rs, decision records. Adr/Names: the names of
--   kinds and signals; Adr/Record, Adr/Content: `AuthzDecision` and what its digest determines;
--   Adr/Stream, Adr/Chain: the stream, its hash chain and checkpoints; Adr/Retention: the bounded
--   sink.
-- * Audit and its children: agentcreds-core/src/audit.rs, logs, commitments and the compositor.
--   Audit/Precedence, Audit/Order: its sorting; Audit/Custody: its runs; Audit/Merging: runs for
--   two organizations; Audit/Reveal, Audit/Binding: from a log to a confirmed record.
-- * Revocation and its children: agentcreds-core/src/revocation.rs, status lists, their signed
--   tokens and the registry.
-- * Accountability and its children: agentcreds-core/src/accountability.rs, ownership records and
--   their commitments.
-- * Spiffe and its children: agentcreds-core/src/spiffe.rs, SPIFFE identifiers, trust bundles and
--   JWT-SVIDs.
-- * The module Tests: toy crates that satisfy the laws, runs of the operations, and each result at
--   a concrete input.
--
-- Representation. A string is the list of its bytes. An instant is a count of nanoseconds since the
-- Unix epoch, not negative; a date literal and `timestamp()` are its whole seconds. Amounts are
-- cents. A HashSet is a list whose order nothing depends on after sorting. A reason of an error
-- keeps only its fixed text. The clock is an argument; the two clock reads of `mint` are one. A
-- Datalog statement stands for its text, with the strings that `datalog_str` must accept listed
-- beside it. The build is the default one, without the `sd-jwt` feature. JSON is a parameter: its
-- writer, and what the code reads from parsed text. A largest age is not negative. All recursion is
-- structural, so there is no fuel.
--
-- Not modelled: key generation, DID documents for publication, DID resolution over the network (a
-- resolver is an argument), CBOR and JSON encodings, the SD-JWT format, the registry,
-- configuration, intent evidence, the OIDC front, BBS credentials, principals, WIMSE tokens and the
-- mappings to other formats of agentcreds-core, and the bindings for other languages.
mod Prelude
pub mod Outcome
pub mod Text
pub mod Codec
pub mod Crypto
pub mod Did
pub mod Gate
pub mod Action
pub mod Credential
pub mod Datalog
pub mod Biscuit
pub mod Signed
pub mod Approval
pub mod Delegation
pub mod Rotation
pub mod Pop
pub mod Adr
pub mod Audit
pub mod Revocation
pub mod Accountability
pub mod Spiffe
mod Tests
