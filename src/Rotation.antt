-- ===== src/Rotation.antt =====
-- agentcreds-core/src/rotation.rs: rotation statements and the key history of a trust anchor. The
-- clock is an argument; JSON text is not modelled.
pub mod Signatures
pub mod Continuity
pub mod Sealing
use agentcreds.Prelude.{
  ℕ, ◌≡◌, Bool, true, false, not, Option, none, some, List, [], ◌∷◌, ◌++◌, length, map,
  if◌then◌else◌,
}
use agentcreds.Outcome.{Result, ok, err, ◌>>=◌, ◌>>◌, guard, ok_or, map_err, invalid_did_signature}
use agentcreds.Text.{Text, codes, text_eq, contains, sort_texts}
use agentcreds.Codec.{u64_le, hash_field}
use agentcreds.Crypto.{Crypto}
use agentcreds.Did.{TrustAnchor, anchor_sign, anchor_from_did_key, verify_signature}
use agentcreds.Credential.{is_empty}
use agentcreds.Signed.{live}
use agentcreds.Approval.Directory.{seconds_le, opt_seconds}

pub record RotationStatement : Type 0 where
  pub previous_did : Text
  pub next_did : Text
  pub effective_at : ℕ
  pub signature : Text

pub record KeyHistory : Type 0 where
  pub root_did : Text
  pub rotations : List RotationStatement
  pub repudiated : List Text
  pub not_after : Option ℕ
  pub version : ℕ
  pub signature : Text

abbrev pub statement_domain : Text
statement_domain = codes "agentcreds-key-rotation-v1"

abbrev pub seal_domain : Text
seal_domain = codes "agentcreds-key-history-seal-v1"

-- What `RotationStatement::payload` feeds to the hash.
unfoldable pub statement_bytes : RotationStatement → Text
statement_bytes s =
    statement_domain
    ++ (hash_field s.previous_did ++ (hash_field s.next_did ++ seconds_le s.effective_at))

unfoldable pub history_of : Text → KeyHistory
history_of root = record {
  root_did = root;
  rotations = [];
  repudiated = [];
  not_after = none;
  version = 0;
  signature = [];
}

unfoldable pub genesis : TrustAnchor → KeyHistory
genesis anchor = history_of anchor.did

-- The last `next_did`, or the root.
unfoldable pub current_from : Text → List RotationStatement → Text
current_from did [] = did
current_from did (s ∷ ss) = current_from s.next_did ss

unfoldable pub current_did : KeyHistory → Text
current_did h = current_from h.root_did h.rotations

unfoldable pub next_dids : List RotationStatement → List Text
next_dids [] = []
next_dids (s ∷ ss) = s.next_did ∷ next_dids ss

unfoldable pub dids : KeyHistory → List Text
dids h = h.root_did ∷ next_dids h.rotations

unfoldable pub without : List Text → List Text → List Text
without repudiated [] = []
without repudiated (d ∷ ds) =
    let rest = without repudiated ds in if contains repudiated d then rest else d ∷ rest

unfoldable pub active_dids : KeyHistory → List Text
active_dids h = without h.repudiated (dids h)

unfoldable pub rotation_bytes : List RotationStatement → Text
rotation_bytes [] = []
rotation_bytes (r ∷ rs) =
    hash_field r.previous_did
    ++ (hash_field r.next_did
        ++ (seconds_le r.effective_at ++ (hash_field r.signature ++ rotation_bytes rs)))

unfoldable pub did_bytes : List Text → Text
did_bytes [] = []
did_bytes (d ∷ ds) = hash_field d ++ did_bytes ds

-- What `KeyHistory::digest` feeds to the hash.
unfoldable pub history_bytes : KeyHistory → Text
history_bytes h =
    seal_domain
    ++ (u64_le h.version
        ++ (hash_field h.root_did
            ++ (u64_le (length h.rotations)
                ++ (rotation_bytes h.rotations
                    ++ (u64_le (length h.repudiated)
                        ++ (did_bytes (sort_texts h.repudiated) ++ opt_seconds h.not_after))))))

-- `if !repudiated.iter().any(..) { repudiated.push(..) }`
unfoldable pub add_repudiated : List Text → Text → List Text
add_repudiated repudiated did =
    if contains repudiated did then repudiated else repudiated ++ did ∷ []

unfoldable pub repudiate : KeyHistory → Text → Result KeyHistory
repudiate h did = do
  guard (contains (dids h) did)
      (invalid_did_signature "cannot repudiate a key outside this history")
  guard (not (text_eq did (current_did h)))
      (invalid_did_signature "cannot repudiate the current key - rotate to a successor first")
  ok (record h { repudiated = add_repudiated h.repudiated did; signature = [] })

unfoldable pub is_current : KeyHistory → ℕ → Bool
is_current h now = live h.not_after now

module _ (c : Crypto) where
  -- `RotationStatement::issue` and `verify`.
  unfoldable pub issue_statement : TrustAnchor → TrustAnchor → ℕ → Result RotationStatement
  issue_statement old next now = do
    let stmt : RotationStatement = record {
      previous_did = old.did;
      next_did = next.did;
      effective_at = now;
      signature = [];
    }
    sig ← anchor_sign c old (c.sha256 (statement_bytes stmt))
    ok (record stmt { signature = c.base64_encode sig })

  unfoldable pub verify_statement : RotationStatement → Result (Unit {0})
  verify_statement s = do
    previous ← anchor_from_did_key c s.previous_did
    sig ← ok_or (c.base64_decode s.signature) (invalid_did_signature "signature base64")
    map_err (verify_signature c previous (c.sha256 (statement_bytes s)) sig)
        (invalid_did_signature "rotation statement signature does not verify")

  unfoldable pub push : KeyHistory → RotationStatement → Result KeyHistory
  push h s = do
    guard (text_eq s.previous_did (current_did h)) (invalid_did_signature "rotation does not chain")
    verify_statement s
    ok (record h { rotations = h.rotations ++ s ∷ [] })

  -- `KeyHistory::seal`: the history that it leaves, and its result. A key that cannot sign leaves the
  -- new version and end without a seal.
  unfoldable pub seal_draft : KeyHistory → TrustAnchor → KeyHistory × Result (Unit {0})
  seal_draft draft current = elim (anchor_sign c current (c.sha256 (history_bytes draft))) [
    | err e ↦ (draft, err e)
    | ok sig ↦ (record draft { signature = c.base64_encode sig }, ok tt)
  ]

  unfoldable pub seal_history :
      KeyHistory → TrustAnchor → ℕ → Option ℕ → KeyHistory × Result (Unit {0})
  seal_history h current version not_after =
      let draft : KeyHistory = record h {
        version = version;
        not_after = not_after;
        signature = [];
      } in
      if text_eq current.did (current_did h)
      then seal_draft draft current
      else (h, err (invalid_did_signature "a key history must be sealed by its current key"))

  -- The loop of `KeyHistory::verify`.
  unfoldable pub verify_chain : Text → List RotationStatement → Result Text
  verify_chain current [] = ok current
  verify_chain current (s ∷ ss) = do
    guard (text_eq s.previous_did current) (invalid_did_signature "broken rotation chain")
    verify_statement s
    verify_chain s.next_did ss

  unfoldable pub verify_history : KeyHistory → Text → Result Text
  verify_history h trusted_root_did = do
    guard (text_eq h.root_did trusted_root_did)
        (invalid_did_signature "key history root does not match the trusted anchor")
    verify_chain h.root_did h.rotations

  unfoldable pub verify_sealed : KeyHistory → Text → Result Text
  verify_sealed h trusted_root_did = do
    current ← verify_history h trusted_root_did
    guard (not (is_empty h.signature)) (invalid_did_signature "key history is not sealed")
    anchor ← anchor_from_did_key c current
    sig ← ok_or (c.base64_decode h.signature) (invalid_did_signature "seal signature base64")
    map_err (verify_signature c anchor (c.sha256 (history_bytes h)) sig)
        (invalid_did_signature "key history seal does not verify under the current key")
    ok current

  unfoldable pub verify_history_current : KeyHistory → Text → ℕ → Result Text
  verify_history_current h trusted_root_did now = do
    current ← verify_sealed h trusted_root_did
    guard (is_current h now) (invalid_did_signature "key history seal has expired")
    ok current

  unfoldable pub current_anchor : KeyHistory → Text → Result TrustAnchor
  current_anchor h trusted_root_did = do
    current ← verify_history h trusted_root_did
    anchor_from_did_key c current

  unfoldable pub authorize_issuer : KeyHistory → Text → Text → ℕ → Result TrustAnchor
  authorize_issuer h trusted_root_did issuer_did now = do
    current ← verify_history_current h trusted_root_did now
    guard (not (contains h.repudiated issuer_did))
        (invalid_did_signature "issuer has been repudiated")
    guard (contains (dids h) issuer_did)
        (invalid_did_signature "issuer is not in the verified key history")
    anchor_from_did_key c issuer_did
