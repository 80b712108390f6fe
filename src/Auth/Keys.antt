-- ===== src/Auth/Keys.antt =====
-- internal/auth/keys.go: the key store that holds its keys in memory. A private key carries its
-- public key, `public_of`. Every method runs alone, under the store's lock.
use realtime_messaging_platf.Prelude.{
  String, lookup, ◌≡◌, refl, str_eq, eq_iff, false, List, [], ◌∷◌, Option, none, some, arith,
}
use realtime_messaging_platf.Domain.Errors.{plain}
use realtime_messaging_platf.Effect.{Result, ok, err}
use realtime_messaging_platf.Auth.Tokens.{KeyStore}

pub record StaticKeyStore (PrivateKey PublicKey : Type 0) : Type 0 where
  pub private_key : Option PrivateKey
  pub key_id : String
  pub public_keys : List (String × PublicKey)

key_or_unknown : {P : Type 0} → Option P → Result P
key_or_unknown none = err (plain "unknown key ID %q")
key_or_unknown (some key) = ok key

signing_key_of : {K : Type 0} → String → Option K → Result (K × String)
signing_key_of key_id none = err (plain "no signing key available")
signing_key_of key_id (some key) = ok (key, key_id)

module _ {K P : Type 0} (public_of : K → P) where
  unfoldable pub new_static_key_store : K → String → StaticKeyStore K P
  new_static_key_store private_key key_id = record {
    private_key = some private_key;
    key_id = key_id;
    public_keys = (key_id, public_of private_key) ∷ [];
  }

module _ {K P : Type 0} where
  unfoldable pub static_signing_key : StaticKeyStore K P → Result (K × String)
  unfolding signing_key_of
  static_signing_key s = signing_key_of s.key_id s.private_key

  unfoldable pub static_public_key : String → StaticKeyStore K P → Result P
  unfolding key_or_unknown
  static_public_key kid s = key_or_unknown (lookup kid s.public_keys)

  unfoldable pub add_public_key : String → P → StaticKeyStore K P → StaticKeyStore K P
  add_public_key kid key s = record s { public_keys = (kid, key) ∷ s.public_keys }

  -- The store as the interface of the minter and the validator; `store` is where it lies.
  unfoldable pub static_key_store : {W : Type 0} → (W → StaticKeyStore K P) → KeyStore W K P
  static_key_store store = record {
    signing_key = λ w. (static_signing_key (store w), w);
    public_key = λ kid w. (static_public_key kid (store w), w);
  }

-- A store serves its own signing key, with the public key under the id that goes with it, and
-- still does after other keys were added under other ids; an added key is served under its id.
pub static_public_key-add_public_key :
    {K P : Type 0} (public_of : K → P) (key : K) (key_id kid : String) (added : P)
    → str_eq kid key_id ≡ false
    → let s = add_public_key kid added (new_static_key_store public_of key key_id) in
      (static_signing_key s ≡ ok (key, key_id))
      × (static_public_key key_id s ≡ ok (public_of key))
      × (static_public_key kid s ≡ ok added)
unfolding static_public_key static_signing_key add_public_key new_static_key_store lookup
static_public_key-add_public_key public_of key key_id kid added h =
    (refl, ground (arith, eq_iff key_id key_id), ground (arith, eq_iff kid kid))
