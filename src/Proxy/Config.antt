-- ===== src/Proxy/Config.antt =====
-- The routes that a backend is given, and the one file or directory that it keeps.
use nexad.Prelude.{ℕ, ◌≡◌, Option, none, some, List, Text}
pub use nexad.Result.{Outcome, failed, value}
use nexad.Result.{NexaError, Result, ok, err}

-- A path is its text.
pub data TlsConfig : Type 0 where
  off : TlsConfig
  auto : (email : Text) → TlsConfig
  manual : (cert key : Text) → TlsConfig

pub record Upstream : Type 0 where
  pub address : Text
  pub weight : ℕ

pub record RouteConfig : Type 0 where
  pub domain : Text
  pub upstream : List Upstream
  pub tls : TlsConfig

-- What the file system reports: a failed reading the text of the error, a failed writing also the
-- file as it is then left.
pub record Faults : Type 0 where
  pub reading : Option Text
  pub writing : Option (Text × Option Text)

abbrev pub no_faults : Faults
no_faults = record { reading = none; writing = none }

-- `write` of a whole file, as the result and the file after it
abbrev pub write_file :
    (Text → NexaError)
    → Option (Text × Option Text)
    → Text
    → Option Text
    → Result (Unit {0}) × Option Text
write_file wrap none content file = (ok tt, some content)
write_file wrap (some (e, left)) content file = (err (wrap e), left)

-- The text form of a configuration that a library gives, and the reading of it.
pub record Form {ℓ} (A : Type ℓ) : Type ℓ where
  pub to_string : A → Outcome Text
  pub from_str : Text → Outcome A

-- The value has a text, and it is read back as the value.
abbrev pub IsReadBack {ℓ} : {A : Type ℓ} → Form A → A → Type ℓ
IsReadBack form a = (s : Text) × (form.to_string a ≡ value s) × (form.from_str s ≡ value a)
