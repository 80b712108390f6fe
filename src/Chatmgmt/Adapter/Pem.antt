-- ===== src/Chatmgmt/Adapter/Pem.antt =====
-- internal/chatmgmt/adapter/aws_keystore.go: the keys in PEM form.
use realtime_messaging_platf.Prelude.{ℕ, String, str_eq, List, Option, none, some, if◌then◌else◌}
use realtime_messaging_platf.Domain.Errors.{plain, wrap}
use realtime_messaging_platf.Effect.{Result, ok, err, labelled}

-- A PEM block: its type and its bytes.
pub record Block : Type 0 where
  pub type' : String
  pub bytes : List ℕ

-- A parser of keys of any kind answers `none` for a key that is not an RSA one.
pub record Crypto (PrivateKey PublicKey : Type 0) : Type 0 where
  pub decode_pem : String → Option Block
  pub parse_pkcs1_private_key : List ℕ → Result PrivateKey
  pub parse_pkcs8_private_key : List ℕ → Result (Option PrivateKey)
  pub parse_pkix_public_key : List ℕ → Result (Option PublicKey)
  pub trim_prefix : String → String → String

rsa_or : {A : Type 0} → String → String → Result (Option A) → Result A
rsa_or l not_rsa (ok none) = err (plain not_rsa)
rsa_or l not_rsa (ok (some key)) = ok key
rsa_or l not_rsa (err e) = err (wrap l e)

module _ {K P : Type 0} (crypto : Crypto K P) where
  private_key_of : Option Block → Result K
  unfolding rsa_or
  private_key_of none = err (plain "no PEM block found in private key data")
  private_key_of (some block) =
      if str_eq block.type' "RSA PRIVATE KEY"
      then labelled "parsing PKCS#1 private key" (crypto.parse_pkcs1_private_key block.bytes)
      else rsa_or "parsing PKCS#8 private key" "PKCS#8 key is not RSA (got %T)"
          (crypto.parse_pkcs8_private_key block.bytes)

  unfoldable pub parse_rsa_private_key : String → Result K
  unfolding private_key_of
  parse_rsa_private_key pem_data = private_key_of (crypto.decode_pem pem_data)

  public_key_of : Option Block → Result P
  unfolding rsa_or
  public_key_of none = err (plain "no PEM block found in public key data")
  public_key_of (some block) =
      rsa_or "parsing PKIX public key" "PKIX key is not RSA (got %T)"
        (crypto.parse_pkix_public_key block.bytes)

  unfoldable pub parse_rsa_public_key : String → Result P
  unfolding public_key_of
  parse_rsa_public_key pem_data = public_key_of (crypto.decode_pem pem_data)
