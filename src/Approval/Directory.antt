-- ===== src/Approval/Directory.antt =====
-- `ApproverDirectory`: a versioned list of approver keys, signed by the organization's anchor.
use agentcreds.Prelude.{
  ℕ, ◌/◌, ◌^◌, ◌&&◌, Option, none, some, List, [], ◌∷◌, ◌++◌, length, if◌then◌else◌,
}
use agentcreds.Outcome.{Result, ok, ◌>>=◌}
use agentcreds.Text.{Text, codes, text_eq, text_le}
use agentcreds.Codec.{u64_le, hash_field}
use agentcreds.Crypto.{Crypto}
use agentcreds.Did.{TrustAnchor, anchor_sign}
use agentcreds.Signed.{live, verify_anchor_signed}

pub record ApproverEntry : Type 0 where
  pub approver_id : Text
  pub approver_did : Text
  pub roles : List Text
  pub not_after : Option ℕ

pub record ApproverDirectory : Type 0 where
  pub version : ℕ
  pub generated_at : ℕ
  pub issuer_did : Text
  pub entries : List ApproverEntry
  pub not_after : Option ℕ
  pub signature : Text

abbrev pub domain : Text
domain = codes "agentcreds-approver-directory-v1"

-- `timestamp().to_le_bytes()`: whole seconds.
unfoldable pub seconds_le : ℕ → Text
seconds_le t = u64_le (t / 10 ^ 9)

unfoldable pub opt_seconds : Option ℕ → Text
opt_seconds none = 0 ∷ []
opt_seconds (some t) = 1 ∷ seconds_le t

unfoldable pub role_bytes : List Text → Text
role_bytes [] = []
role_bytes (r ∷ rs) = hash_field r ++ role_bytes rs

unfoldable pub entry_bytes : ApproverEntry → Text
entry_bytes e =
    hash_field e.approver_id
    ++ (hash_field e.approver_did
        ++ (u64_le (length e.roles) ++ (role_bytes e.roles ++ opt_seconds e.not_after)))

unfoldable pub entries_bytes : List ApproverEntry → Text
entries_bytes [] = []
entries_bytes (e ∷ es) = entry_bytes e ++ entries_bytes es

-- What `digest` feeds to the hash.
unfoldable pub directory_bytes : ApproverDirectory → Text
directory_bytes d =
    domain
    ++ (u64_le d.version
        ++ (seconds_le d.generated_at
            ++ (hash_field d.issuer_did ++ (entries_bytes d.entries ++ opt_seconds d.not_after))))

-- `entries.sort_by(|a, b| a.approver_id.cmp(&b.approver_id))`, which is stable.
unfoldable pub insert_entry : ApproverEntry → List ApproverEntry → List ApproverEntry
insert_entry e [] = e ∷ []
insert_entry e (f ∷ fs) =
    if text_le e.approver_id f.approver_id then e ∷ f ∷ fs else f ∷ insert_entry e fs

unfoldable pub sort_entries : List ApproverEntry → List ApproverEntry
sort_entries [] = []
sort_entries (e ∷ es) = insert_entry e (sort_entries es)

unfoldable pub find_live : List ApproverEntry → Text → ℕ → Option ApproverEntry
find_live [] did now = none
find_live (e ∷ es) did now =
    let rest = find_live es did now in
    if text_eq e.approver_did did && live e.not_after now then some e else rest

unfoldable pub lookup : ApproverDirectory → Text → ℕ → Option ApproverEntry
unfolding find_live
lookup d did now = find_live d.entries did now

module _ (c : Crypto) where
  unfoldable pub digest : ApproverDirectory → Text
  digest d = c.sha256 (directory_bytes d)

  unfoldable pub seal :
      List ApproverEntry → ℕ → ℕ → Option ℕ → TrustAnchor → Result ApproverDirectory
  seal entries version generated_at not_after anchor = do
    let dir : ApproverDirectory = record {
      version = version;
      generated_at = generated_at;
      issuer_did = anchor.did;
      entries = sort_entries entries;
      not_after = not_after;
      signature = [];
    }
    sig ← anchor_sign c anchor (digest dir)
    ok (record dir { signature = c.base64_encode sig })

  unfoldable pub verify_current : ApproverDirectory → TrustAnchor → ℕ → Result (Unit {0})
  verify_current d anchor now =
      verify_anchor_signed c d.issuer_did (digest d) d.signature d.not_after now anchor
