-- ===== src/Proxy.antt =====
-- The proxy backends of src/adapters/proxy: the files that they write for the routes.
pub mod Config
pub mod Traefik
pub mod TraefikLaws
pub mod NexaProxy
pub mod Nginx
pub mod NginxLaws
pub mod Caddy
pub mod CaddyAdmin
pub mod CaddyLaws
pub mod Tests
