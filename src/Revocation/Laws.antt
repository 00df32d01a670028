-- ===== src/Revocation/Laws.antt =====
-- What the crates that revocation.rs calls document.
use agentcreds.Prelude.{ℕ, ◌≤◌, ◌≡◌, ◌||◌, ◌==◌, Bool, false, some, List, [], ◌∷◌, length}
use agentcreds.Text.{Text}
use agentcreds.Credential.{is_empty}
use agentcreds.Revocation.{StatusCrates, bit_at}

abbrev pub has_dot : Text → Bool
has_dot [] = false
has_dot (x ∷ xs) = x == b'.' || has_dot xs

-- What the crates document: each decoder reads back what its encoder wrote, new bits are zero and at
-- least as many as asked for, bits of a whole number of bytes survive being written as bytes, JSON
-- text is not empty, and base64url has no dot.
pub record StatusLaws (s : StatusCrates) : Type 0 where
  pub url-decode-encode : (b : Text) → s.url_decode (s.url_encode b) ≡ some b
  pub url_encode_dotless : (b : Text) → has_dot (s.url_encode b) ≡ false
  pub url_encode_nonempty : (b : Text) → is_empty b ≡ false → is_empty (s.url_encode b) ≡ false
  pub deflate-inflate :
      (raw : Text) → (z : Text) × (s.deflate raw ≡ some z) × (s.inflate z ≡ some raw)
  pub zero_bits_length : (n : ℕ) → n ≤ length (s.from_vec (s.zero_bits n))
  pub zero_bits_unset : (n i : ℕ) → bit_at (s.from_vec (s.zero_bits n)) i ≡ false
  pub from-into_vec :
      (raw : Text) (bits : List Bool)
      → length bits ≡ length (s.from_vec raw)
      → s.from_vec (s.into_vec bits) ≡ bits
  pub header_written :
      (typ alg kid : Text)
      → (t : Text) × (s.header_json typ alg kid ≡ some t)
        × (is_empty t ≡ false)
        × (s.read_header t ≡ some (record { typ = some typ; alg = some alg; kid = some kid }))
  pub payload_written :
      (sub : Text) (iat bits : ℕ) (lst : Text)
      → (t : Text) × (s.payload_json sub iat bits lst ≡ some t)
        × (is_empty t ≡ false)
        × (s.read_payload t
            ≡ some (record {
              sub = some sub;
              iat = some iat;
              status_list = some (record { bits = some bits; lst = some lst });
            }))
