-- ===== src/Revocation/Tokens.antt =====
-- The published form of a status list, and its size field.
use agentcreds.Prelude.{
  ℕ, zero, suc, ◌*◌, ◌/◌, ◌%◌, ◌-◌, ◌^◌, ◌≤◌, ◌<◌, ◌≡◌, refl, Bool, true, false, some, List, [],
  ◌∷◌, ◌++◌, ltb, ◌==◌, length, arith,
}
use Prim.Native.Nat.{max, min}
use mathlib.Core.List.{append_assoc}
use agentcreds.Outcome.{ok}
use agentcreds.Text.{Text, text_eq_refl}
use agentcreds.Crypto.{Crypto}
use agentcreds.Did.{TrustAnchor}
use agentcreds.Credential.{is_empty}
use agentcreds.Revocation.{
  StatusCrates, RevocationList, bit_at, b64url_decode, decode_and_decompress, decode_bits,
  check_index, header_b64, payload_b64, signing_input, is_revoked, verify_list, status_list_typ,
  split_dot, three_parts, to_status_list_token, list_of_claims, from_status_list_token,
}
use agentcreds.Revocation.Laws.{has_dot, StatusLaws}

split_dot-append :
    (h rest : Text) → has_dot h ≡ false → split_dot (h ++ b'.' ∷ rest) ≡ some (h, rest)
unfolding split_dot
split_dot-append [] rest e = refl
split_dot-append (x ∷ xs) rest e =
    let tail : has_dot xs ≡ false = ground (arith, e) in
    let other : (x == b'.') ≡ false = ground (arith, e) in
    rw (other, split_dot-append xs rest tail) refl

three_parts-append :
    (h p sig : Text)
    → has_dot h ≡ false
    → has_dot p ≡ false
    → three_parts ((h ++ b'.' ∷ p) ++ b'.' ∷ sig) ≡ some (h, (p, sig))
unfolding three_parts
three_parts-append h p sig eh ep =
    rw
      (
        three_parts,
        append_assoc h (b'.' ∷ p) (b'.' ∷ sig),
        split_dot-append h (p ++ b'.' ∷ sig) eh,
        split_dot-append p sig ep,
      )
      refl

bit_at-past : (bs : List Bool) (i : ℕ) → length bs ≤ i → bit_at bs i ≡ false
bit_at-past [] i h = refl
bit_at-past (b ∷ bs) zero h = absurd (omega arith)
bit_at-past (b ∷ bs) (suc i) h = bit_at-past bs i (omega arith)

-- What a reader of the token has of a list: its time to the second, and the size that its bytes allow.
abbrev pub published : RevocationList → Text → RevocationList
published list raw = record list {
  updated = list.updated / 10 ^ 9 * 10 ^ 9;
  size = min (length raw * 8) (2 ^ 64 - 1) / max list.bits 1;
}

module _ (c : Crypto) (s : StatusCrates) where
  signing_input-parts :
      (S : StatusLaws s) (list : RevocationList)
      → signing_input c s list
        ≡ ok (
            s.url_encode (S.header_written status_list_typ list.alg list.issuer).0
            ++ b'.'
              ∷ s.url_encode
                  (S.payload_written list.id (list.updated / 10 ^ 9) list.bits list.encoded_list).0)
  unfolding signing_input header_b64 payload_b64
  signing_input-parts S list =
      let (h, header, _, _) = S.header_written status_list_typ list.alg list.issuer in
      let (p, payload, _, _) =
        S.payload_written list.id (list.updated / 10 ^ 9) list.bits list.encoded_list in
      rw (header, payload) refl

  list_of_claims-published :
      (list : RevocationList) (raw : Text)
      → list.bits < 2 ^ 8
      → decode_and_decompress c s list.encoded_list ≡ ok raw
      → list_of_claims c s
          (record { typ = some status_list_typ; alg = some list.alg; kid = some list.issuer })
          (record {
            sub = some list.id;
            iat = some (list.updated / 10 ^ 9);
            status_list = some (record { bits = some list.bits; lst = some list.encoded_list });
          })
          list.signature
        ≡ ok (published list raw)
  unfolding list_of_claims
  list_of_claims-published list raw small decoded =
      let byte : list.bits % 2 ^ 8 ≡ list.bits = omega (arith, small) in
      rw (text_eq_refl status_list_typ, byte, decoded) refl

  -- A list that is written as a token is read back, to the second and with the size that its bytes allow,
  -- where its bits decode, its bits per entry are of 8 bits and its signature is not empty.
  pub to-from_status_list_token :
      (S : StatusLaws s) (list : RevocationList) (raw : Text)
      → list.bits < 2 ^ 8
      → is_empty list.signature ≡ false
      → decode_and_decompress c s list.encoded_list ≡ ok raw
      → (token : Text) × (to_status_list_token c s list ≡ ok token)
        × (from_status_list_token c s token ≡ ok (published list raw))
  unfolding to_status_list_token from_status_list_token b64url_decode
  to-from_status_list_token S list raw small signed decoded =
      let (h, header, full_h, read_h) = S.header_written status_list_typ list.alg list.issuer in
      let (p, payload, full_p, read_p) =
        S.payload_written list.id (list.updated / 10 ^ 9) list.bits list.encoded_list in
      (
        (s.url_encode h ++ b'.' ∷ s.url_encode p) ++ b'.' ∷ list.signature,
        rw (signing_input-parts S list) refl,
        rw
            (
              three_parts-append (s.url_encode h) (s.url_encode p) list.signature
                  (S.url_encode_dotless h) (S.url_encode_dotless p),
              S.url_encode_nonempty h full_h,
              S.url_encode_nonempty p full_p,
              signed,
              S.url-decode-encode h,
              read_h,
              S.url-decode-encode p,
              read_p,
            )
            (list_of_claims-published list raw small decoded),
      )

  -- The size is outside the signature, and a lookup past the bits is answered with no revocation: a
  -- verified list still verifies with any size written in, and then reads every index past its bits and
  -- within that size as not revoked.
  pub oversized-is_revoked :
      (list : RevocationList) (anchor : TrustAnchor) (bits : List Bool) (n i : ℕ)
      → verify_list c s list anchor ≡ ok tt
      → decode_bits c s list ≡ ok bits
      → length bits ≤ i
      → i < n
      → (verify_list c s (record list { size = n }) anchor ≡ ok tt)
        × (is_revoked c s (record list { size = n }) i ≡ ok false)
  unfolding verify_list signing_input header_b64 payload_b64 is_revoked check_index decode_bits
  oversized-is_revoked list anchor bits n i verified decoded past within =
      let inside : ltb i n ≡ true = ground (arith, within) in
      (verified, rw (inside, decoded, bit_at-past bits i past) refl)
