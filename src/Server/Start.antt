-- ===== src/Server/Start.antt =====
-- The servers of thruster/src/server and what they are made of: each commits the app that it is
-- given. `none` is a panic.
use fanta.Prelude.{Option, none, some, List, [], ◌∷◌, ◌>>=◌}
use fanta.Text.{Str}
use fanta.Text.Utf8.{Bytes}
use fanta.App.{App, commit}

-- `Server`, `HyperServer` and `UnixHyperServer`
pub record Server {ρ ℓ σ} (R : Type ρ) (T : Type ℓ) (S : Type σ) : Type (ρ ⊔ ℓ ⊔ σ) where
  pub app : App R T S

pub record SslServer {ρ ℓ σ} (R : Type ρ) (T : Type ℓ) (S : Type σ) : Type (ρ ⊔ ℓ ⊔ σ) where
  pub app : App R T S
  pub cert : Option Bytes
  pub cert_pass : Str

pub record SslHyperServer {ρ ℓ σ} (R : Type ρ) (T : Type ℓ) (S : Type σ) (Acceptor : Type 0)
    : Type (ρ ⊔ ℓ ⊔ σ) where
  pub app : App R T S
  pub cert : Option Bytes
  pub key : Option Bytes
  pub tls_acceptor : Option Acceptor

-- `Identity::from_pkcs12` and the acceptor's builder of native_tls; `certs` and
-- `pkcs8_private_keys` of rustls, and its `set_single_cert` with the acceptor that is made of it.
pub record Tls (Cert Key Acceptor : Type 0) : Type 0 where
  pub from_pkcs12 : Bytes → Str → Option Acceptor
  pub certs : Bytes → Option (List Cert)
  pub pkcs8_private_keys : Bytes → Option (List Key)
  pub single_cert : List Cert → Key → Option Acceptor

-- `keys.remove(0)`
abbrev pub first_key : {Key : Type 0} → List Key → Option Key
first_key [] = none
first_key (key ∷ keys) = some key

module _ {ρ ℓ σ} {R : Type ρ} {T : Type ℓ} {S : Type σ} where
  -- `Server::new`
  unfoldable pub new_server : App R T S → Option (Server R T S)
  new_server app = do ready ← commit app; some (record { app = ready })

  -- `HyperServer::new`
  unfoldable pub new_hyper_server : App R T S → Option (Server R T S)
  new_hyper_server app = do ready ← commit app; some (record { app = ready })

  -- `UnixHyperServer::new`
  unfoldable pub new_unix_server : App R T S → Option (Server R T S)
  new_unix_server app = do ready ← commit app; some (record { app = ready })

  -- `SSLServer::new`
  unfoldable pub new_ssl_server : App R T S → Option (SslServer R T S)
  new_ssl_server app = do
    ready ← commit app
    some (record { app = ready; cert = none; cert_pass = [] })

  abbrev pub cert : SslServer R T S → Bytes → SslServer R T S
  cert server bytes = record server { cert = some bytes }

  abbrev pub cert_pass : SslServer R T S → Str → SslServer R T S
  cert_pass server pass = record server { cert_pass = pass }

  module _ {Cert Key Acceptor : Type 0} (tls : Tls Cert Key Acceptor) where
    -- What `SSLServer::build` does before it listens.
    unfoldable pub ssl_acceptor : SslServer R T S → Option Acceptor
    ssl_acceptor server = do bytes ← server.cert; tls.from_pkcs12 bytes server.cert_pass

    -- What `SSLHyperServer::build` does before it listens.
    unfoldable pub with_acceptor :
        SslHyperServer R T S Acceptor → Option (SslHyperServer R T S Acceptor)
    with_acceptor server = do
      cert_u8 ← server.cert
      key_u8 ← server.key
      certs ← tls.certs cert_u8
      keys ← tls.pkcs8_private_keys key_u8
      key ← first_key keys
      acceptor ← tls.single_cert certs key
      some (record server { tls_acceptor = some acceptor })

module _ {ρ ℓ σ} {R : Type ρ} {T : Type ℓ} {S : Type σ} {Acceptor : Type 0} where
  -- `SSLHyperServer::new`
  unfoldable pub new_ssl_hyper_server : App R T S → Option (SslHyperServer R T S Acceptor)
  new_ssl_hyper_server app = do
    ready ← commit app
    some (record { app = ready; cert = none; key = none; tls_acceptor = none })

  abbrev pub hyper_cert : SslHyperServer R T S Acceptor → Bytes → SslHyperServer R T S Acceptor
  hyper_cert server bytes = record server { cert = some bytes }

  abbrev pub hyper_key : SslHyperServer R T S Acceptor → Bytes → SslHyperServer R T S Acceptor
  hyper_key server bytes = record server { key = some bytes }
