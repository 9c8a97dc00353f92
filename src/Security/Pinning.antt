-- ===== src/Security/Pinning.antt =====
-- internal/networks/security/security.go: the pinned certificate and the token.
use netbula.Base.{
  ℕ, String, ◌≡◌, ◌↔◌, sym, ap, ◌∙◌, inl, inr, none, some, List, [], ◌∷◌, arith, string_eq,
}
use netbula.Base.Result.{Result-cases}
use netbula.Security.Hex.{encode_to_string, encode_to_string-injective, size, size-encode_to_string}
use netbula.Security.{
  Crypto, IsCrypto, Identity, generate_random_token, generate_manager_identity, fingerprint,
  verify_peer_certificate, make_template,
}

module _ (C : Crypto) (law : IsCrypto C) where
  accepted-fingerprint :
      (h : String) (leaf : List ℕ) (chain : List (List ℕ))
      → (verify_peer_certificate C h (leaf ∷ chain) ≡ some none) ↔ (fingerprint C leaf ≡ h)
  unfolding verify_peer_certificate
  accepted-fingerprint h leaf chain = (λ p. ground arith, λ p. ground arith)

  fingerprint-injective :
      (a b : List ℕ) → fingerprint C a ≡ fingerprint C b → C.sum256 a ≡ C.sum256 b
  unfolding fingerprint
  fingerprint-injective a b e =
      encode_to_string-injective (C.sum256 a) (C.sum256 b) (law.sum256-All a) (law.sum256-All b) e

  -- The identity that is generated: one certificate, and its fingerprint.
  generated :
      (w w' : C.World) (i : Identity)
      → generate_manager_identity C w ≡ some (w', i)
      → (der : List ℕ) × (i.cert.certificate ≡ der ∷ []) × (i.cert_hash ≡ fingerprint C der)
  unfolding generate_manager_identity
  generated w w' i h =
      let (w₁, public, private) = C.generate_key w in
      let (w₂, template) = make_template C w₁ in
      elim (Result-cases (C.create_certificate template public private w₂).1) [
        | inl (e, p) ↦ absurd (ground arith)
        | inr (der, p) ↦ (der, ground arith, ground arith)
      ]

  -- Whoever checks with the fingerprint of a manager's identity accepts that manager's own chain of
  -- certificates, and accepts a chain exactly if its first certificate has the SHA-256 hash of the
  -- manager's certificate.
  pub verify_peer_certificate-identity :
      (w w' : C.World) (i : Identity)
      → generate_manager_identity C w ≡ some (w', i)
      → (der : List ℕ) × (i.cert.certificate ≡ der ∷ [])
        × (verify_peer_certificate C i.cert_hash i.cert.certificate ≡ some none)
        × ((leaf : List ℕ) (chain : List (List ℕ))
            → (verify_peer_certificate C i.cert_hash (leaf ∷ chain) ≡ some none)
              ↔ (C.sum256 leaf ≡ C.sum256 der))
  verify_peer_certificate-identity w w' i h =
      let (der, c, f) = generated w w' i h in
      let pinned = accepted-fingerprint i.cert_hash in
      (
        der,
        c,
        rw c ((pinned der []).1 (sym f)),
        λ leaf chain. (
          λ p. fingerprint-injective leaf der ((pinned leaf chain).0 p ∙ f),
          λ p. (pinned leaf chain).1 (unfold fingerprint in (ap encode_to_string p ∙ sym f)),
        ),
      )

  -- A token is twice as long as the comment says: its 32 random bytes are 64 hexadecimal digits.
  pub generate_random_token-size : (w : C.World) → size (generate_random_token C w).1 ≡ 64
  unfolding generate_random_token
  generate_random_token-size w =
      omega (arith, size-encode_to_string (C.random_bytes 32 w).1, law.random_bytes-length 32 w)
