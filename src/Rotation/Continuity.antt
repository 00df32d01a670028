-- ===== src/Rotation/Continuity.antt =====
-- What the operations of a key history preserve, and what authorizing an issuer establishes.
use agentcreds.Prelude.{
  ℕ, ◌≡◌, ◌≢◌, refl, sym, ◌∙◌, true, false, not, ◌&&◌, Option, some, List, [], ◌∷◌, ◌++◌, ◌≤◌,
  arith,
}
use agentcreds.Outcome.{
  ok, >>=-eq-ok, guard-eq-ok, ok_or, ok_or-eq-ok, map_err, map_err-eq-ok, invalid_did_signature,
}
use agentcreds.Text.{Text, text_eq, text_eq→eq, text_eq_refl, contains}
use agentcreds.Crypto.{Crypto}
use agentcreds.Did.{TrustAnchor, anchor_from_did_key, verify_signature}
use agentcreds.Credential.{is_empty}
use agentcreds.Signed.{live}
use agentcreds.Rotation.{
  RotationStatement, KeyHistory, current_from, current_did, dids, without, active_dids,
  history_bytes, add_repudiated, repudiate, is_current, verify_statement, push, verify_chain,
  verify_history, verify_sealed, verify_history_current, authorize_issuer,
}
use agentcreds.Rotation.Signatures.{
  is_empty-nonempty, live-before, history_bytes-seal_message, seal_message, IsSigned, Chained,
  signed_as, Chained-as, verify_chain-Chained,
}

contains-without :
    (repudiated ds : List Text) (d : Text)
    → contains (without repudiated ds) d ≡ (contains ds d && not (contains repudiated d))
unfolding without contains
contains-without repudiated [] d = refl
contains-without repudiated (x ∷ xs) d =
    ground (arith, contains-without repudiated xs d, text_eq→eq x d)

-- The active keys of a history are its keys that are not repudiated.
pub contains-active_dids :
    (h : KeyHistory) (d : Text)
    → contains (active_dids h) d ≡ (contains (dids h) d && not (contains h.repudiated d))
unfolding active_dids
contains-active_dids h d = contains-without h.repudiated (dids h) d

contains-append_end : (ds : List Text) (d : Text) → contains (ds ++ d ∷ []) d ≡ true
unfolding contains
contains-append_end [] d = ground (arith, text_eq_refl d)
contains-append_end (x ∷ xs) d = ground (arith, contains-append_end xs d)

contains-add_repudiated :
    (repudiated : List Text) (d : Text) → contains (add_repudiated repudiated d) d ≡ true
unfolding add_repudiated
contains-add_repudiated repudiated d = ground (arith, contains-append_end repudiated d)

current_from-snoc :
    (did : Text) (ss : List RotationStatement) (s : RotationStatement)
    → current_from did (ss ++ s ∷ []) ≡ s.next_did
unfolding current_from
current_from-snoc did [] s = refl
current_from-snoc did (x ∷ xs) s = current_from-snoc x.next_did xs s

module _ (c : Crypto) where
  verify_chain-current :
      (ss : List RotationStatement) (did : Text) {end : Text}
      → verify_chain c did ss ≡ ok end
      → end ≡ current_from did ss
  unfolding verify_chain current_from
  verify_chain-current [] did h = ground arith
  verify_chain-current (s ∷ ss) did {end} h =
      let (_, h₁) = guard-eq-ok (text_eq s.previous_did did) _ _ h in
      let (_, _, h₂) = >>=-eq-ok (verify_statement c s) _ h₁ in
      verify_chain-current ss s.next_did {end = end} h₂

  verify_chain-snoc :
      (ss : List RotationStatement) (did : Text) (s : RotationStatement) {end : Text}
      → verify_chain c did ss ≡ ok end
      → s.previous_did ≡ end
      → verify_statement c s ≡ ok tt
      → verify_chain c did (ss ++ s ∷ []) ≡ ok s.next_did
  unfolding verify_chain
  verify_chain-snoc [] did s h e v = ground (arith, h, e, v, text_eq_refl did)
  verify_chain-snoc (x ∷ xs) did s {end} h e v =
      let (a, h₁) = guard-eq-ok (text_eq x.previous_did did) _ _ h in
      let (_, b, h₂) = >>=-eq-ok (verify_statement c x) _ h₁ in
      ground (arith, a, b, verify_chain-snoc xs x.next_did s {end = end} h₂ e v)

  -- A statement that `push` accepts extends a history that verifies to one that verifies, under the
  -- same root, with the statement's key as the current one.
  pub push-verify_history :
      (h h' : KeyHistory) (s : RotationStatement) (root current : Text)
      → verify_history c h root ≡ ok current
      → push c h s ≡ ok h'
      → (verify_history c h' root ≡ ok s.next_did) × (current_did h' ≡ s.next_did)
  unfolding verify_history push current_did
  push-verify_history h h' s root current v p =
      let (trusted, v₁) = guard-eq-ok (text_eq h.root_did root) _ _ v in
      let (chained, p₁) =
        guard-eq-ok (text_eq s.previous_did (current_from h.root_did h.rotations)) _ _ p in
      let (_, verified, p₂) = >>=-eq-ok (verify_statement c s) _ p₁ in
      let at_end = verify_chain-current h.rotations h.root_did {end = current} v₁ in
      let longer =
        verify_chain-snoc h.rotations h.root_did s {end = current} v₁
          (text_eq→eq s.previous_did _ chained ∙ sym at_end) (ground (arith, verified)) in
      let valid : verify_history c h' root ≡ ok s.next_did =
        unfold verify_history in ground (arith, trusted, p₂, longer) in
      (valid, ground (arith, p₂, current_from-snoc h.root_did h.rotations s))

  -- What a seal that verifies rests on.
  verify_sealed-signed :
      (h : KeyHistory) (root current : Text)
      → verify_sealed c h root ≡ ok current
      → (verify_history c h root ≡ ok current)
        × (is_empty h.signature ≡ false)
        × IsSigned c current (seal_message h) h.signature
  unfolding verify_sealed
  verify_sealed-signed h root current e =
      let (end, v, e₁) = >>=-eq-ok (verify_history c h root) _ e in
      let (signed, e₂) = guard-eq-ok (not (is_empty h.signature)) _ _ e₁ in
      let (anchor, key, e₃) = >>=-eq-ok (anchor_from_did_key c end) _ e₂ in
      let (sig, decoded, e₄) =
        >>=-eq-ok
          (ok_or (c.base64_decode h.signature) (invalid_did_signature "seal signature base64")) _
          e₃ in
      let (_, valid, same) =
        >>=-eq-ok
          (map_err (verify_signature c anchor (c.sha256 (history_bytes h)) sig)
            (invalid_did_signature "key history seal does not verify under the current key"))
          _ e₄ in
      let at_end : end ≡ current = ground (arith, same) in
      let by : IsSigned c end (history_bytes h) h.signature = record {
        anchor = anchor;
        key = key;
        signature = sig;
        decoded = ok_or-eq-ok (c.base64_decode h.signature) _ decoded;
        verifies =
            map_err-eq-ok (verify_signature c anchor (c.sha256 (history_bytes h)) sig)
              (invalid_did_signature "key history seal does not verify under the current key")
              (ground (arith, valid));
      } in
      (
        ground (arith, v, at_end),
        ground (arith, signed),
        signed_as c at_end (history_bytes-seal_message h) by,
      )

  pub verify_history-chain :
      (h : KeyHistory) (root current : Text)
      → verify_history c h root ≡ ok current
      → (h.root_did ≡ root)
        × (verify_chain c h.root_did h.rotations ≡ ok current)
        × (current ≡ current_did h)
  unfolding verify_history current_did
  verify_history-chain h root current v =
      let (trusted, v₁) = guard-eq-ok (text_eq h.root_did root) _ _ v in
      (
        text_eq→eq h.root_did root trusted,
        v₁,
        verify_chain-current h.rotations h.root_did {end = current} v₁,
      )

  -- What authorizing an issuer shows of the history and of the anchor that is returned.
  pub record IsAuthorized (h : KeyHistory) (root issuer : Text) (now : ℕ) (anchor : TrustAnchor)
      : Type 0 where
    pub rooted_at : h.root_did ≡ root
    pub chain : Chained c root h.rotations (current_did h)
    pub nonempty : h.signature ≢ []
    pub sealed : IsSigned c (current_did h) (seal_message h) h.signature
    pub unexpired : (end : ℕ) → h.not_after ≡ some end → now ≤ end
    pub known : contains (dids h) issuer ≡ true
    pub not_repudiated : contains h.repudiated issuer ≡ false
    pub active : contains (active_dids h) issuer ≡ true
    pub returned : anchor_from_did_key c issuer ≡ ok anchor

  -- An issuer is authorized only by a history that starts at the trusted root; whose rotations lead to
  -- its current key, each signed by the key that it replaces; that carries a seal, signed by the current
  -- key over every other field of the history; whose end, where it has one, is not past; and only
  -- where the issuer is a key of the history that is not repudiated. The anchor returned is the key that
  -- the issuer's DID names.
  pub authorize_issuer-IsAuthorized :
      (h : KeyHistory) (root issuer : Text) (now : ℕ) (anchor : TrustAnchor)
      → authorize_issuer c h root issuer now ≡ ok anchor
      → IsAuthorized h root issuer now anchor
  unfolding authorize_issuer verify_history_current is_current
  authorize_issuer-IsAuthorized h root issuer now anchor e =
      let (current, v, e₁) = >>=-eq-ok (verify_history_current c h root now) _ e in
      let (kept, e₂) = guard-eq-ok (not (contains h.repudiated issuer)) _ _ e₁ in
      let (member, e₃) = guard-eq-ok (contains (dids h) issuer) _ _ e₂ in
      let (end, sealed, v₁) = >>=-eq-ok (verify_sealed c h root) _ v in
      let (fresh, _) = guard-eq-ok (live h.not_after now) _ _ v₁ in
      let (v₂, full, by) = verify_sealed-signed h root end sealed in
      let (at_root, chain, at_end) = verify_history-chain h root end v₂ in
      let links = verify_chain-Chained c h.rotations h.root_did {end = end} chain in
      record {
        rooted_at = at_root;
        chain = Chained-as c h.rotations at_root at_end links;
        nonempty = is_empty-nonempty h.signature full;
        sealed = signed_as c at_end refl by;
        unexpired = λ t ends. live-before h.not_after now t fresh ends;
        known = member;
        not_repudiated = ground (arith, kept);
        active = ground (arith, contains-active_dids h issuer, kept, member);
        returned = e₃;
      }

  -- After a repudiation that succeeds, the history has lost its seal and its current key is as before;
  -- and however it is sealed again, the repudiated key is not authorized as an issuer.
  pub repudiate-authorize_issuer :
      (h h' : KeyHistory) (did root : Text) (now version : ℕ) (not_after : Option ℕ) (seal : Text)
      (anchor : TrustAnchor)
      → repudiate h did ≡ ok h'
      → (current_did h' ≡ current_did h)
        × (verify_sealed c h' root ≢ ok (current_did h'))
        × (authorize_issuer c
              (record h' { signature = seal; version = version; not_after = not_after })
              root
              did
              now
            ≢ ok anchor)
  unfolding repudiate current_did
  repudiate-authorize_issuer h h' did root now version not_after seal anchor e =
      let (_, e₁) = guard-eq-ok (contains (dids h) did) _ _ e in
      let (_, e₂) = guard-eq-ok (not (text_eq did (current_from h.root_did h.rotations))) _ _ e₁ in
      let later : KeyHistory = record h' {
        signature = seal;
        version = version;
        not_after = not_after;
      } in
      (
        ground (arith, e₂),
        λ sealed. ground (arith, e₂, (verify_sealed-signed h' root _ sealed).1),
        λ v. ground (
          arith,
          e₂,
          contains-add_repudiated h.repudiated did,
          contains-active_dids later did,
          (authorize_issuer-IsAuthorized later root did now anchor v).active,
        ),
      )
