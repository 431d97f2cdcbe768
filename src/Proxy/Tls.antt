-- ===== src/Proxy/Tls.antt =====
-- crates/pgfault-proxy/src/tls.rs: what TLS is set up with. rustls and rustls_pemfile are parameters.
use pgfault.Base.{if◌then◌else◌, Bool, String, Option, none, some, List, [], ◌∷◌, Bytes}
use pgfault.Base.Result.{Result, ok, err, ◌>>=◌}

-- How the certificate of the server is judged: not at all, or by these roots.
pub data Verifier (Roots : Type 0) : Type 0 where
  no_verify : Verifier Roots
  trusting : Roots → Verifier Roots

-- `certs` and `private_key` parse a file, `with_single_cert` and `client_config` build a
-- configuration, `public_roots` are webpki's, and `add` puts a certificate to the roots.
pub record Rustls (Cert Key Roots Acceptor Connector : Type 0) : Type 0 where
  pub certs : Bytes → Option (List Cert)
  pub private_key : Bytes → Option (Option Key)
  pub with_single_cert : List Cert → Key → Option Acceptor
  pub public_roots : Roots
  pub add : Cert → Roots → Option Roots
  pub client_config : Verifier Roots → Connector

pub record TlsConfig (Acceptor Connector : Type 0) : Type 0 where
  pub frontend : Option Acceptor
  pub upstream : Option Connector

pub data TlsError : Type 0 where
  reading parsing_certificates parsing_private_key : String → TlsError
  no_private_key server_config upstream_ca : TlsError

-- `ok_or`
abbrev or_error {ℓ} : {A : Type ℓ} → TlsError → Option A → Result TlsError A
or_error e none = err e
or_error e (some a) = ok a

module _ {Cert Key Roots Acceptor Connector : Type 0}
    (lib : Rustls Cert Key Roots Acceptor Connector) (read : String → Option Bytes) where
  unfoldable pub load_certs : String → Result TlsError (List Cert)
  load_certs path = do
    data_ ← or_error (reading path) (read path)
    or_error (parsing_certificates path) (lib.certs data_)

  unfoldable pub load_key : String → Result TlsError Key
  load_key path = do
    data_ ← or_error (reading path) (read path)
    found ← or_error (parsing_private_key path) (lib.private_key data_)
    or_error no_private_key found

  unfoldable pub frontend_acceptor : String → String → Result TlsError Acceptor
  unfolding load_certs load_key
  frontend_acceptor cert key = do
    certs ← load_certs cert
    k ← load_key key
    or_error server_config (lib.with_single_cert certs k)

  unfoldable pub add_all : List Cert → Roots → Result TlsError Roots
  add_all [] roots = ok roots
  add_all (c ∷ cs) roots = do more ← or_error upstream_ca (lib.add c roots); add_all cs more

  -- The public roots, and those of the file.
  abbrev pub with_ca : Option String → Result TlsError Roots
  with_ca none = ok lib.public_roots
  with_ca (some ca) = do certs ← load_certs ca; add_all certs lib.public_roots

  unfoldable pub upstream_connector : Bool → Option String → Result TlsError Connector
  unfolding load_certs add_all
  upstream_connector insecure extra_ca =
      if insecure
      then ok (lib.client_config no_verify)
      else (do roots ← with_ca extra_ca; ok (lib.client_config (trusting roots)))
