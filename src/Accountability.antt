-- ===== src/Accountability.antt =====
-- agentcreds-core/src/accountability.rs: ownership records and the salted commitment that travels.
pub mod Commitments
use agentcreds.Prelude.{
  ℕ, ◌+◌, Bool, true, false, not, ◌&&◌, ◌||◌, List, [], ◌∷◌, ◌++◌, ltb, leb, ◌==◌, length,
  if◌then◌else◌,
}
use agentcreds.Outcome.{Result, ok, ◌>>=◌, ◌>>◌, guard, out_of_bounds}
use agentcreds.Text.{Text, codes, sort_texts}
use agentcreds.Text.Case.{eq_ignore_ascii_case}
use agentcreds.Text.Order.{dedup}
use agentcreds.Codec.{u64_le, hash_field}
use agentcreds.Crypto.{Crypto}

abbrev pub ownership_domain : Text
ownership_domain = codes "agentcreds-ownership-commitment-v1"

abbrev pub min_salt_len : ℕ
min_salt_len = 16

pub record OwnershipRecord : Type 0 where
  pub party_id : Text
  pub version : ℕ
  pub members : List Text
  pub salt : Text

-- The white space of `str::trim` in UTF-8: of one byte, of two and of three.
abbrev pub space_1 : ℕ → Bool
space_1 x = (leb 9 x && leb x 13) || x == 32

abbrev pub space_2 : ℕ → ℕ → Bool
space_2 x y = x == 0xc2 && (y == 0x85 || y == 0xa0)

abbrev pub space_3 : ℕ → ℕ → ℕ → Bool
space_3 x y z =
    (x == 0xe1 && (y == 0x9a && z == 0x80))
    || ((x == 0xe2
          && ((y == 0x80 && ((leb 0x80 z && leb z 0x8a) || (z == 0xa8 || (z == 0xa9 || z == 0xaf))))
              || (y == 0x81 && z == 0x9f)))
        || (x == 0xe3 && (y == 0x80 && z == 0x80)))

-- `trim().is_empty()`
unfoldable pub is_blank : Text → Bool
is_blank [] = true
is_blank (x ∷ []) = space_1 x
is_blank (x ∷ y ∷ []) = (space_1 x && space_1 y) || space_2 x y
is_blank (x ∷ y ∷ z ∷ zs) =
    (space_1 x && is_blank (y ∷ z ∷ zs))
    || ((space_2 x y && is_blank (z ∷ zs)) || (space_3 x y z && is_blank zs))

-- `OwnershipRecord::new`.
unfoldable pub new_ownership : Text → ℕ → List Text → Text → Result OwnershipRecord
new_ownership party_id version members salt = do
  guard (not (is_blank party_id)) (out_of_bounds "party_id")
  guard (not (ltb (length salt) min_salt_len)) (out_of_bounds "salt")
  ok (record {
    party_id = party_id;
    version = version;
    members = dedup (sort_texts members);
    salt = salt;
  })

unfoldable pub member_fields : List Text → Text
member_fields [] = []
member_fields (m ∷ ms) = hash_field m ++ member_fields ms

-- What `commitment` feeds to the hash.
unfoldable pub ownership_bytes : OwnershipRecord → Text
ownership_bytes r =
    ownership_domain
    ++ (hash_field r.party_id
        ++ (u64_le r.version
            ++ (hash_field r.salt ++ (u64_le (length r.members) ++ member_fields r.members))))

module _ (c : Crypto) where
  unfoldable pub ownership_commitment : OwnershipRecord → Text
  ownership_commitment r = c.hex_encode (c.sha256 (ownership_bytes r))

  unfoldable pub matches_commitment : OwnershipRecord → Text → Bool
  matches_commitment r commitment = eq_ignore_ascii_case (ownership_commitment r) commitment
