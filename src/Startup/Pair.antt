-- ===== src/Startup/Pair.antt =====
-- What loading the key pair makes sure of.
use iam_service.Prelude.{ℕ, String, true, ◌≡◌, arith}
use iam_service.Errors.{Error, foreign}
use iam_service.Effect.{Reply, done, failed, ok, bind-inv, or_fail-inv, pure-inv, require-inv}
use iam_service.Effect.Preserves.{Preserves, preserves_rules}
use iam_service.Effect.Safe.{IsSafe, safe_rules}
use iam_service.Platform.{Host}
use iam_service.Startup.Infra.{FileReply, contents, missing, unreadable, Infra}
use iam_service.Startup.Keys.{
  file_contents, read_pem, pkcs8_key, private_key_of, public_key_of, same_number, is_pair,
  load_rsa_keys,
}

same_number_sound : (a b : ℕ) → same_number a b ≡ true → a ≡ b
same_number_sound a b h = ground arith

module _ {h : Host} (f : Infra h) where
  -- A property of the state that reading a file keeps.
  module _ (P : f.State → Type 0)
      (read : (path : String) (s : f.State) → P s → P (f.read_file path s).1) where
    file_contents-Preserves :
        (kind path : String) (reply : FileReply) → Preserves P (file_contents f kind path reply)
    file_contents-Preserves kind path (contents pem) = search preserves_rules
    file_contents-Preserves kind path (missing e) = search preserves_rules
    file_contents-Preserves kind path (unreadable e) = search preserves_rules

    read_pem-Preserves : (kind path : String) → Preserves P (read_pem f kind path)
    unfolding read_pem
    read_pem-Preserves kind path = record {
      at = λ s held. (file_contents-Preserves kind path _).at _ (read path s held);
    }

    pkcs8_key-Preserves : (e : Error) (reply : Reply f.AnyKey) → Preserves P (pkcs8_key f e reply)
    pkcs8_key-Preserves e (done key) = search preserves_rules
    pkcs8_key-Preserves e (failed x) = search preserves_rules

    private_key_of-Preserves :
        (block : f.Block) (reply : Reply h.PrivateKey) → Preserves P (private_key_of f block reply)
    private_key_of-Preserves block (done key) = search preserves_rules
    private_key_of-Preserves block (failed e) = pkcs8_key-Preserves _ _

    public_key_of-Preserves : (reply : Reply f.AnyKey) → Preserves P (public_key_of f reply)
    public_key_of-Preserves (done key) = search preserves_rules
    public_key_of-Preserves (failed e) = search preserves_rules

    pub load_rsa_keys-Preserves :
        (private_key_path public_key_path : String)
        → Preserves P (load_rsa_keys f private_key_path public_key_path)
    unfolding load_rsa_keys
    load_rsa_keys-Preserves private_key_path public_key_path =
        search
          (preserves_rules, read_pem-Preserves, private_key_of-Preserves, public_key_of-Preserves)
          depth 20

  file_contents-IsSafe :
      (kind path : String) (reply : FileReply) → IsSafe (file_contents f kind path reply)
  file_contents-IsSafe kind path (contents pem) = search safe_rules
  file_contents-IsSafe kind path (missing e) = search safe_rules
  file_contents-IsSafe kind path (unreadable e) = search safe_rules

  read_pem-IsSafe : (kind path : String) → IsSafe (read_pem f kind path)
  unfolding read_pem
  read_pem-IsSafe kind path = record { at = λ s. (file_contents-IsSafe kind path _).at _ }

  private_key_of-IsSafe :
      (block : f.Block) (reply : Reply h.PrivateKey) → IsSafe (private_key_of f block reply)
  private_key_of-IsSafe block (done key) = search safe_rules
  private_key_of-IsSafe block (failed e) = by_pkcs8 (f.parse_pkcs8_private_key block)
    where
      by_pkcs8 : (reply : Reply f.AnyKey) → IsSafe (pkcs8_key f (foreign e) reply)
      by_pkcs8 (done key) = search safe_rules
      by_pkcs8 (failed x) = search safe_rules

  public_key_of-IsSafe : (reply : Reply f.AnyKey) → IsSafe (public_key_of f reply)
  public_key_of-IsSafe (done key) = search safe_rules
  public_key_of-IsSafe (failed e) = search safe_rules

  pub load_rsa_keys-IsSafe :
      (private_key_path public_key_path : String)
      → IsSafe (load_rsa_keys f private_key_path public_key_path)
  unfolding load_rsa_keys
  load_rsa_keys-IsSafe private_key_path public_key_path =
      search (safe_rules, read_pem-IsSafe, private_key_of-IsSafe, public_key_of-IsSafe) depth 20

  -- The public key is the public half of the private one.
  pub record IsPair (private : h.PrivateKey) (public : f.PublicKey) : Type 0 where
    pub modulus : f.modulus (f.public_key private) ≡ f.modulus public
    pub exponent : f.exponent (f.public_key private) ≡ f.exponent public

  is_pair-IsPair :
      (private : h.PrivateKey) (public : f.PublicKey)
      → is_pair f private public ≡ true
      → IsPair private public
  is_pair-IsPair private public paired = record {
    modulus = same_number_sound _ _ (ground arith);
    exponent = same_number_sound _ _ (ground arith);
  }

  pub load_rsa_keys-IsPair :
      (private_key_path public_key_path : String) (private : h.PrivateKey) (public : f.PublicKey)
      (s s' : f.State)
      → load_rsa_keys f private_key_path public_key_path s ≡ (ok (private, public), s')
      → IsPair private public
  unfolding load_rsa_keys
  load_rsa_keys-IsPair private_key_path public_key_path private public s s' run =
      bind-inv (read_pem f "private key" private_key_path) _ s run λ pem s0 e0 k0.
        or_fail-inv _ (f.decode pem) _ s0 k0 λ block d k1.
          bind-inv (private_key_of f block (f.parse_pkcs1_private_key block)) _ s0 k1
            λ key s1 e1 k2.
              bind-inv (read_pem f "public key" public_key_path) _ s1 k2 λ pem' s2 e2 k3.
                or_fail-inv _ (f.decode pem') _ s2 k3 λ block' d' k4.
                  bind-inv (public_key_of f (f.parse_pkix_public_key block')) _ s2 k4
                    λ key' s3 e3 k5. require-inv (is_pair f key key') _ _ s3 k5 λ paired k6.
                      pure-inv (λ keys s. IsPair keys.0 keys.1) k6 (is_pair-IsPair key key' paired)
