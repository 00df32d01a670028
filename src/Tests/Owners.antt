-- ===== src/Tests/Owners.antt =====
-- The results about ownership records at concrete inputs.
use agentcreds.Prelude.{◌≡◌, ◌⊎◌, refl, true, List, [], ◌∷◌, replicate, arith}
use agentcreds.Outcome.{ok}
use agentcreds.Text.{Text, text_eq, contains}
use agentcreds.Crypto.{IsShaCollision}
use agentcreds.Accountability
use agentcreds.Accountability.{
  OwnershipRecord, new_ownership, ownership_bytes, ownership_commitment, matches_commitment,
}
use agentcreds.Accountability.Commitments.{
  IsSized, new_ownership_of_members, matches_commitment-members,
}
use agentcreds.Tests.Toy.{digests, digest_laws}

abbrev party : Text
party = 116 ∷ []

abbrev salt : Text
salt = replicate 16 49

abbrev listed : List Text
listed = (2 ∷ []) ∷ (1 ∷ []) ∷ (2 ∷ []) ∷ []

abbrev sorted : List Text
sorted = (1 ∷ []) ∷ (2 ∷ []) ∷ []

alike : (t : Text) → contains listed t ≡ contains sorted t
unfolding contains
alike t = ground arith

new_ownership_of_members_example :
    (new_ownership party 7 listed salt ≡ new_ownership party 7 sorted salt)
    × ((r : OwnershipRecord) → matches_commitment digests r (ownership_commitment digests r) ≡ true)
new_ownership_of_members_example = new_ownership_of_members digests party 7 listed sorted salt alike

abbrev owner : OwnershipRecord
owner = record { party_id = party; version = 7; members = sorted; salt = salt }

owner_of_listed : new_ownership party 7 listed salt ≡ ok owner
unfolding new_ownership Accountability.is_blank agentcreds.Text.sort_texts
    agentcreds.Text.insert_sorted agentcreds.Text.text_le agentcreds.Text.Order.dedup text_eq
owner_of_listed = refl

owner_of_sorted : new_ownership party 7 sorted salt ≡ ok owner
unfolding new_ownership Accountability.is_blank agentcreds.Text.sort_texts
    agentcreds.Text.insert_sorted agentcreds.Text.text_le agentcreds.Text.Order.dedup text_eq
owner_of_sorted = refl

owner-IsSized : IsSized owner
owner-IsSized = record {
  party_id = omega arith;
  version = omega arith;
  salt = omega arith;
  count = omega arith;
  members = (omega arith, (omega arith, tt));
}

owner_matches : matches_commitment digests owner (ownership_commitment digests owner) ≡ true
unfolding matches_commitment ownership_commitment agentcreds.Text.Case.eq_ignore_ascii_case
    ownership_bytes agentcreds.Codec.hash_field agentcreds.Codec.u64_le agentcreds.Codec.le_bytes
    Accountability.member_fields
owner_matches = refl

matches_commitment-members_example :
    ((owner ≡ owner) × ((t : Text) → contains listed t ≡ contains sorted t))
    ⊎ IsShaCollision digests (ownership_bytes owner) (ownership_bytes owner)
matches_commitment-members_example =
    matches_commitment-members digests digest_laws owner owner listed sorted owner-IsSized
      owner-IsSized owner_of_listed owner_of_sorted owner_matches
