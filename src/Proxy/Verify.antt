-- ===== src/Proxy/Verify.antt =====
-- crates/pgfault-proxy/src/tls.rs: `NoVerify`, and how the server's certificate is judged. The
-- verifier of webpki, the assertions and the schemes are rustls's.
use pgfault.Base.{
  ◌≡◌, refl, sym, true, false, String, Option, List, Bytes, nat_eq, string_eq, bytes_eq_instance,
}
use pgfault.Base.Result.{Result, ok, >>=-eq-ok, ok-injective}
use pgfault.Proxy.Tls.{Verifier, no_verify, trusting, Rustls, TlsError, with_ca, upstream_connector}

-- `rustls::client::danger::ServerCertVerifier`
pub record CertVerifier (Cert Name Time Signature Verified Valid Scheme VerifyError : Type 0)
    : Type 0 where
  pub verify_server_cert : Cert → List Cert → Name → Bytes → Time → Result VerifyError Verified
  pub verify_tls12_signature : Bytes → Cert → Signature → Result VerifyError Valid
  pub verify_tls13_signature : Bytes → Cert → Signature → Result VerifyError Valid
  pub supported_verify_schemes : List Scheme

-- The methods of `NoVerify`. The first argument is the assertion that rustls wants, and the schemes
-- are those of its crypto provider.
abbrev pub verify_server_cert :
    {Cert Name Time Verified VerifyError : Type 0}
    → Verified
    → Cert
    → List Cert
    → Name
    → Bytes
    → Time
    → Result VerifyError Verified
verify_server_cert verified end_entity intermediates server_name ocsp_response now = ok verified

abbrev pub verify_tls12_signature :
    {Cert Signature Valid VerifyError : Type 0}
    → Valid
    → Bytes
    → Cert
    → Signature
    → Result VerifyError Valid
verify_tls12_signature valid message cert dss = ok valid

abbrev pub verify_tls13_signature :
    {Cert Signature Valid VerifyError : Type 0}
    → Valid
    → Bytes
    → Cert
    → Signature
    → Result VerifyError Valid
verify_tls13_signature valid message cert dss = ok valid

abbrev pub supported_verify_schemes : {Scheme : Type 0} → List Scheme → List Scheme
supported_verify_schemes supported = supported

module _ {Cert Name Time Signature Verified Valid Scheme VerifyError : Type 0} (verified : Verified)
    (valid : Valid) (schemes : List Scheme) where
  -- `impl ServerCertVerifier for NoVerify`
  abbrev pub of_no_verify : CertVerifier Cert Name Time Signature Verified Valid Scheme VerifyError
  of_no_verify = record {
    verify_server_cert = verify_server_cert verified;
    verify_tls12_signature = verify_tls12_signature valid;
    verify_tls13_signature = verify_tls13_signature valid;
    supported_verify_schemes = supported_verify_schemes schemes;
  }

  module _ {Key Roots Acceptor Connector : Type 0}
      (webpki : Roots → CertVerifier Cert Name Time Signature Verified Valid Scheme VerifyError)
      (lib : Rustls Cert Key Roots Acceptor Connector) (read : String → Option Bytes) where
    -- How a configured verifier judges.
    abbrev pub judge :
        Verifier Roots → CertVerifier Cert Name Time Signature Verified Valid Scheme VerifyError
    judge no_verify = of_no_verify
    judge (trusting roots) = webpki roots

    -- An insecure connector accepts any certificate and any signature of a handshake.
    pub insecure-accepts :
        (ca : Option String) (c : Connector)
        → upstream_connector lib read true ca ≡ ok c
        → (v : Verifier Roots) × (c ≡ lib.client_config v)
          × ((cert : Cert) (chain : List Cert) (name : Name) (ocsp : Bytes) (now : Time)
              → (judge v).verify_server_cert cert chain name ocsp now ≡ ok verified)
          × ((message : Bytes) (cert : Cert) (dss : Signature)
              → ((judge v).verify_tls12_signature message cert dss ≡ ok valid)
                × ((judge v).verify_tls13_signature message cert dss ≡ ok valid))
    unfolding upstream_connector
    insecure-accepts ca c built = (
      no_verify,
      ok-injective {E = TlsError} (sym built),
      (λ cert chain name ocsp now. refl),
      λ message cert dss. (refl, refl),
    )

    -- Any other judges by webpki, with roots that are the public ones and those of the file.
    pub secure-judges :
        (ca : Option String) (c : Connector)
        → upstream_connector lib read false ca ≡ ok c
        → (roots : Roots) × (with_ca lib read ca ≡ ok roots)
          × (c ≡ lib.client_config (trusting roots))
          × (judge (trusting roots) ≡ webpki roots)
    unfolding upstream_connector
    secure-judges ca c built =
        let (roots, e, h) = >>=-eq-ok (with_ca lib read ca) _ built in
        (roots, e, ok-injective {E = TlsError} (sym h), refl)
