-- ===== src/Startup/Keys.antt =====
-- internal/app/keys.go: the RSA key pair.
use Prim.Native.String.{◌++◌ as concat}
use iam_service.Prelude.{ℕ, String, Bool, leb, ◌&&◌}
use iam_service.Errors.{Error, new, wrap, foreign, at}
use iam_service.Effect.{Reply, done, failed, M, pure, fail, require, or_fail, ◌>>=◌, ◌>>◌}
use iam_service.Platform.{Host, Bytes}
use iam_service.Startup.Infra.{FileReply, contents, missing, unreadable, Infra}

-- `==` on integers, and Cmp(…) == 0.
abbrev pub same_number : ℕ → ℕ → Bool
same_number a b = leb a b && leb b a

module _ {h : Host} (f : Infra h) where
  -- A PEM file of a key, whose `kind` the errors name.
  abbrev pub file_contents : (kind path : String) → FileReply → M f.State Bytes
  file_contents kind path (contents pem) = pure pem
  file_contents kind path (missing e) =
      fail
        (wrap (concat kind (concat " not found at " (concat (h.quote path) ": "))) (foreign e) "")
  file_contents kind path (unreadable e) = fail (at (concat "read " kind) (foreign e))

  unfoldable pub read_pem : (kind path : String) → M f.State Bytes
  read_pem kind path s = let (reply, s') = f.read_file path s in file_contents kind path reply s'

  abbrev pub no_block : String → Error
  no_block kind = new (concat "decode " (concat kind " PEM: no PEM block found"))

  abbrev pub unsupported : String → f.AnyKey → Error
  unsupported kind key =
      new (concat "parse " (concat kind (concat ": unsupported key type " (f.type_name key))))

  -- PKCS8, where PKCS1 was refused with the error `e`.
  abbrev pub pkcs8_key : (e : Error) → Reply f.AnyKey → M f.State h.PrivateKey
  pkcs8_key e (failed pkcs8) = fail (at "parse private key" e)
  pkcs8_key e (done key) = or_fail (unsupported "private key" key) (f.as_rsa_private_key key)

  abbrev pub private_key_of : f.Block → Reply h.PrivateKey → M f.State h.PrivateKey
  private_key_of block (done key) = pure key
  private_key_of block (failed e) = pkcs8_key (foreign e) (f.parse_pkcs8_private_key block)

  abbrev pub public_key_of : Reply f.AnyKey → M f.State f.PublicKey
  public_key_of (failed e) = fail (at "parse public key" (foreign e))
  public_key_of (done key) = or_fail (unsupported "public key" key) (f.as_rsa_public_key key)

  abbrev pub is_pair : h.PrivateKey → f.PublicKey → Bool
  is_pair private public =
      same_number (f.modulus (f.public_key private)) (f.modulus public)
      && same_number (f.exponent (f.public_key private)) (f.exponent public)

  unfoldable pub load_rsa_keys :
      (private_key_path public_key_path : String) → M f.State (h.PrivateKey × f.PublicKey)
  load_rsa_keys private_key_path public_key_path = do
    private_key_pem ← read_pem "private key" private_key_path
    private_block ← or_fail (no_block "private key") (f.decode private_key_pem)
    private_key ← private_key_of private_block (f.parse_pkcs1_private_key private_block)
    public_key_pem ← read_pem "public key" public_key_path
    public_block ← or_fail (no_block "public key") (f.decode public_key_pem)
    public_key ← public_key_of (f.parse_pkix_public_key public_block)
    require (is_pair private_key public_key) (new "private/public RSA keys do not match")
    pure (private_key, public_key)
