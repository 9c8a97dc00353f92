-- ===== src/Security.antt =====
-- internal/networks/security/security.go: tokens, the identity of the manager, and the check of its
-- certificate. Ed25519, X.509 and SHA-256 are parameters, as are the randomness and the clock, the
-- `World`; a byte is a number.
pub mod Hex
pub mod Pinning
use netbula.Base.{
  ℕ, ◌+◌, ◌*◌, ◌<◌, String, ◌≡◌, Bool, true, false, not, Option, none, some, List, [], ◌∷◌, All,
  length, ◌==◌, string_eq, if◌then◌else◌,
}
use netbula.Base.Result.{Err, Result, ok, err, fresh}
use netbula.Security.Hex.{encode_to_string}

-- The fields of `x509.Certificate` that the program sets.
pub record Template : Type 0 where
  pub serial_number : ℕ
  pub not_before : ℕ
  pub not_after : ℕ
  pub is_ca : Bool
  pub key_usage : List String

pub record Crypto : Type 1 where
  pub World : Type 0
  pub now : World → World × ℕ
  pub unix : ℕ → ℕ
  pub add_date : ℕ → ℕ → ℕ → ℕ → ℕ
  pub random_bytes : ℕ → World → World × List ℕ
  pub generate_key : World → World × List ℕ × List ℕ
  pub create_certificate : Template → List ℕ → List ℕ → World → World × Result (List ℕ)
  pub sum256 : List ℕ → List ℕ

-- `rand.Read` fills the slice that it is given, and a hash is a list of bytes.
pub record IsCrypto (C : Crypto) : Type 0 where
  pub random_bytes-length : (n : ℕ) (w : C.World) → length (C.random_bytes n w).1 ≡ n
  pub sum256-All : (b : List ℕ) → All (λ x. x < 256) (C.sum256 b)

-- The parts of `tls.Certificate` that the program sets.
pub record Certificate : Type 0 where
  pub certificate : List (List ℕ)
  pub private_key : List ℕ

-- What `GenerateManagerIdentity` returns.
pub record Identity : Type 0 where
  pub cert : Certificate
  pub token : String
  pub cert_hash : String

module _ (C : Crypto) where
  unfoldable pub generate_random_token : C.World → C.World × String
  generate_random_token w = let (w', bytes) = C.random_bytes 32 w in (w', encode_to_string bytes)

  unfoldable pub fingerprint : List ℕ → String
  fingerprint raw = encode_to_string (C.sum256 raw)

  -- The three readings of the clock, in their order.
  unfoldable pub make_template : C.World → C.World × Template
  make_template w =
      let (w₁, serial) = C.now w in
      let (w₂, start) = C.now w₁ in
      let (w₃, end) = C.now w₂ in
      (
        w₃,
        record {
          serial_number = C.unix serial;
          not_before = start;
          not_after = C.add_date end 10 0 0;
          is_ca = true;
          key_usage = "DigitalSignature" ∷ "CertSign" ∷ [];
        },
      )

  -- `none` is `log.Fatal`. The error of `GenerateKey` is dropped.
  unfoldable pub generate_manager_identity : C.World → Option (C.World × Identity)
  unfolding make_template fingerprint generate_random_token
  generate_manager_identity w =
      let (w₁, public, private) = C.generate_key w in
      let (w₂, template) = make_template w₁ in
      let (w₃, created) = C.create_certificate template public private w₂ in
      elim created [
        | err e ↦ none
        | ok der ↦
            let (w₄, token) = generate_random_token w₃ in
            some (
              w₄,
              record {
                cert = record { certificate = der ∷ []; private_key = private };
                token = token;
                cert_hash = fingerprint der;
              },
            )
      ]

  -- The function that `GenerateTlsConfig` installs; `none` is the panic at `rawCerts[0]`.
  unfoldable pub verify_peer_certificate : String → List (List ℕ) → Option (Option Err)
  unfolding fingerprint
  verify_peer_certificate cert_hash [] = none
  verify_peer_certificate cert_hash (leaf ∷ raw_certs) =
      if not (fingerprint leaf == cert_hash)
      then some (
          some (
            fresh
              "SECURITY ALERT: Fingerprint mismatch, the TLS certificate sent by the server has the wrong hash"))
      else some none
