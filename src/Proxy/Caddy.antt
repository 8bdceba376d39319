-- ===== src/Proxy/Caddy.antt =====
-- `CaddyBackend` of src/adapters/proxy/caddy.rs: the Caddyfile of the routes, and the removal of a
-- domain's block by its lines and braces.
use nexad.Prelude.{
  String, ℕ, suc, ◌+◌, ◌-◌, Bool, true, false, ◌&&◌, ◌||◌, Option, none, some, List, [], ◌∷◌, ◌++◌,
  map, Text, text, ◌==◌, byte_eq, list_eq, if◌then◌else◌, ltb, any, is_empty,
}
use nexad.Str.{starts_with, ends_with, lines, join}
use nexad.Str.Lines.{unlines}
use nexad.Result.{proxy, Result, ok, err}
use nexad.Proxy.Config.{off, auto, manual, Upstream, RouteConfig, Faults, write_file}

abbrev pub concat : List Text → Text
concat [] = []
concat (t ∷ ts) = t ++ concat ts

abbrev pub ln : String → Text
ln s = text s ++ (10 ∷ [])

unfoldable pub header : RouteConfig → Text
header route = elim route.tls [
  | off ↦ text "http://" ++ (route.domain ++ ln " {")
  | auto email ↦ route.domain ++ (ln " {" ++ (text "    tls " ++ (email ++ ln "")))
  | manual cert key ↦
      route.domain ++ (ln " {" ++ (text "    tls " ++ (cert ++ (text " " ++ (key ++ ln "")))))
]

-- `none` where the code indexes an empty list, which panics
unfoldable pub reverse_proxy : List Upstream → Option Text
reverse_proxy [] = none
reverse_proxy (u ∷ []) = some (text "    reverse_proxy " ++ (u.address ++ ln ""))
reverse_proxy (u ∷ v ∷ us) = some (
    concat (
      text "    reverse_proxy "
      ∷ join (text " ") (map (λ (w : Upstream). w.address) (u ∷ v ∷ us))
      ∷ ln " {"
      ∷ (if any (λ (w : Upstream). ltb 1 w.weight) (u ∷ v ∷ us)
          then ln "        lb_policy weighted_round_robin"
          else [])
      ∷ ln "        health_uri /health"
      ∷ ln "        health_interval 10s"
      ∷ ln "    }"
      ∷ []))

abbrev pub block : RouteConfig → Option Text
block route = elim (reverse_proxy route.upstream) [
  | none ↦ none
  | some body ↦ some (header route ++ (body ++ ln "}"))
]

-- the blocks behind the first
abbrev pub blocks : List RouteConfig → Option Text
blocks [] = some []
blocks (route ∷ routes) = elim (block route) [
  | none ↦ none
  | some b ↦ elim (blocks routes) [ none ↦ none | some bs ↦ some (ln "" ++ (b ++ bs)) ]
]

unfoldable pub render_caddyfile : List RouteConfig → Option Text
render_caddyfile [] = some []
render_caddyfile (route ∷ routes) = elim (block route) [
  | none ↦ none
  | some b ↦ elim (blocks routes) [ none ↦ none | some bs ↦ some (b ++ bs) ]
]

abbrev pub count : ℕ → Text → ℕ
count c [] = 0
count c (x ∷ s) = let n = count c s in if x == c then suc n else n

-- `trim` and `trim_end` are those of `str`, by the Unicode white space.
module _ (trim trim_end : Text → Text) (domain : Text) where
  unfoldable pub is_domain_line : Text → Bool
  is_domain_line line =
      let t = trim line in
      (starts_with t (domain ++ text " ")
        || (starts_with t (text "http://" ++ (domain ++ text " "))
            || (starts_with t (text "https://" ++ (domain ++ text " "))
                || (t == domain
                    || (t == text "http://" ++ domain || t == text "https://" ++ domain)))))
      && ends_with t (text "{")

  -- The loop over the lines, in a block at a depth or outside: the lines that are kept. The depth is
  -- looked at behind a line, so the order of the braces on the line does not matter.
  unfoldable pub kept : Option ℕ → List Text → List Text
  kept skip [] = []
  kept none (l ∷ ls) = elim (is_domain_line l) [
    | true ↦ kept (some 1) ls
    | false ↦ l ∷ kept none ls
  ]
  kept (some depth) (l ∷ ls) = elim (ltb (count 125 l) (depth + count 123 l)) [
    | true ↦ kept (some (depth + count 123 l - count 125 l)) ls
    | false ↦ kept none ls
  ]

  abbrev pub final_content : Text → Text
  final_content result = let t = trim_end result in if is_empty t then [] else t ++ ln ""

  unfoldable pub without_block : Text → Text
  unfolding lines
  without_block content = final_content (unlines (kept none (lines content)))

  unfoldable pub remove_route : Faults → Option Text → Result (Unit {0}) × Option Text
  remove_route fs none = elim fs.reading [
    | none ↦ (ok tt, none)
    | some e ↦ (err (proxy (text "failed to read Caddyfile: " ++ e)), none)
  ]
  remove_route fs (some content) = elim fs.reading [
    | none ↦
        write_file (λ e. proxy (text "failed to rewrite Caddyfile: " ++ e)) fs.writing
          (without_block content) (some content)
    | some e ↦ (err (proxy (text "failed to read Caddyfile: " ++ e)), some content)
  ]

-- `none` where the code panics
unfoldable pub apply_routes :
    (caddyfile_path : Text)
    → Faults
    → List RouteConfig
    → Option Text
    → Option (Result (Unit {0}) × Option Text)
apply_routes caddyfile_path fs routes file = elim (render_caddyfile routes) [
  | none ↦ none
  | some content ↦ some (
      write_file
        (λ e. proxy (text "failed to write Caddyfile " ++ (caddyfile_path ++ (text ": " ++ e))))
        fs.writing content file)
]
