-- ===== src/Network/Wireguard.antt =====
-- `WireguardManager` of src/adapters/network/wireguard.rs. No packet is sent by it.
use nexad.Prelude.{
  ℕ, zero, suc, Bool, true, false, Option, some, List, [], ◌∷◌, Text, text, if◌then◌else◌,
}
use nexad.Result.{Result, ok}

-- Keys are their 32 bytes.
pub record WgKeypair : Type 0 where
  pub private_key : List ℕ
  pub public_key : List ℕ

-- `secret` are the bytes that were drawn, `derive` is the public key of a private one.
unfoldable pub generate : (derive : List ℕ → List ℕ) (secret : List ℕ) → WgKeypair
generate derive secret = record { private_key = secret; public_key = derive secret }

-- `encode` is the standard base64.
unfoldable pub private_key_base64 : (encode : List ℕ → Text) → WgKeypair → Text
private_key_base64 encode k = encode k.private_key

unfoldable pub public_key_base64 : (encode : List ℕ → Text) → WgKeypair → Text
public_key_base64 encode k = encode k.public_key

pub record WgPeerConfig : Type 0 where
  pub public_key : List ℕ
  pub endpoint : Option Text
  pub allowed_ips : List Text
  pub persistent_keepalive : Option ℕ

pub record WireguardManager : Type 0 where
  pub keypair : WgKeypair
  pub node_ip : Text
  pub listen_port : ℕ
  pub active : Bool

abbrev pub repeat : ℕ → List ℕ
repeat zero = []
repeat (suc n) = 0 ∷ repeat n

unfoldable pub inactive : WireguardManager
inactive = record {
  keypair = record { private_key = repeat 32; public_key = repeat 32 };
  node_ip = text "0.0.0.0";
  listen_port = 0;
  active = false;
}

unfoldable pub new :
    (derive : List ℕ → List ℕ) (secret : List ℕ) (node_ip : Text) (listen_port : ℕ)
    → WireguardManager
unfolding generate
new derive secret node_ip listen_port = record {
  keypair = generate derive secret;
  node_ip = node_ip;
  listen_port = listen_port;
  active = true;
}

-- Both branches of the code return `Ok`.
unfoldable pub create_tunnel : WireguardManager → Result (Unit {0})
create_tunnel m = if m.active then ok tt else ok tt

unfoldable pub peer_config_for_node :
    WireguardManager → (node_public_key : List ℕ) (node_endpoint node_subnet : Text) → WgPeerConfig
peer_config_for_node m node_public_key node_endpoint node_subnet = record {
  public_key = node_public_key;
  endpoint = some node_endpoint;
  allowed_ips = node_subnet ∷ [];
  persistent_keepalive = some 25;
}
