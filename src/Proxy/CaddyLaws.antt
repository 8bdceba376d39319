-- ===== src/Proxy/CaddyLaws.antt =====
-- Which lines of a Caddyfile the removal of a domain takes away.
use nexad.Prelude.{
  ℕ, ◌+◌, ◌-◌, ◌≡◌, refl, ap, ◌∙◌, true, false, not, none, some, List, [], ◌∷◌, ◌++◌, arith, Text,
  ltb, All, All-append, any,
}
use nexad.HashMap.{is_some}
use nexad.Proxy.Config.{no_faults, RouteConfig}
use nexad.Str.Lines.{unlines, IsLine, lines-unlines}
use nexad.Result.{ok}
use nexad.Proxy.Caddy.{
  remove_route, without_block, final_content, count, is_domain_line, kept, reverse_proxy, blocks,
  render_caddyfile,
}

-- The lines that end the depth `depth` with their last: each before it leaves a block open.
abbrev pub ClosesAtEnd : ℕ → List Text → Type 0
ClosesAtEnd depth [] = ⊥
ClosesAtEnd depth (l ∷ []) = ltb (count 125 l) (depth + count 123 l) ≡ false
ClosesAtEnd depth (l ∷ m ∷ ls) =
    (ltb (count 125 l) (depth + count 123 l) ≡ true)
    × ClosesAtEnd (depth + count 123 l - count 125 l) (m ∷ ls)

-- Lines none of which opens a block of the domain.
abbrev pub IsForeign : (trim trim_end : Text → Text) (domain : Text) → List Text → Type 0
IsForeign trim trim_end domain ls = All (λ l. is_domain_line trim trim_end domain l ≡ false) ls

module _ (trim trim_end : Text → Text) (domain : Text) where
  kept-append :
      (before rest : List Text)
      → IsForeign trim trim_end domain before
      → kept trim trim_end domain none (before ++ rest)
        ≡ before ++ kept trim trim_end domain none rest
  unfolding kept
  kept-append [] rest h = refl
  kept-append (l ∷ before) rest (a, h) = ground (arith, a, kept-append before rest h)

  kept-foreign :
      (ls : List Text) → IsForeign trim trim_end domain ls → kept trim trim_end domain none ls ≡ ls
  unfolding kept
  kept-foreign [] h = refl
  kept-foreign (l ∷ ls) (a, h) = ground (arith, a, kept-foreign ls h)

  kept-opens :
      (head : Text) (ls : List Text)
      → is_domain_line trim trim_end domain head ≡ true
      → kept trim trim_end domain none (head ∷ ls) ≡ kept trim trim_end domain (some 1) ls
  unfolding kept
  kept-opens head ls h = ground (arith, h)

  kept-block :
      (depth : ℕ) (body rest : List Text)
      → ClosesAtEnd depth body
      → kept trim trim_end domain (some depth) (body ++ rest) ≡ kept trim trim_end domain none rest
  unfolding kept
  kept-block depth [] rest h = elim h [ ]
  kept-block depth (l ∷ []) rest h = ground (arith, h)
  kept-block depth (l ∷ m ∷ ls) rest (a, h) =
      ground (arith, a, kept-block (depth + count 123 l - count 125 l) (m ∷ ls) rest h)

  -- In a file where one line opens a block of the domain and the block's braces close with the last
  -- line of its body, exactly these lines are taken away, however deep the blocks in the body are;
  -- and a file without such a line keeps all its lines.
  kept_lem :
      (before body after : List Text) (head : Text)
      → IsForeign trim trim_end domain before
      → is_domain_line trim trim_end domain head ≡ true
      → ClosesAtEnd 1 body
      → IsForeign trim trim_end domain after
      → (kept trim trim_end domain none (before ++ head ∷ (body ++ after)) ≡ before ++ after)
        × (kept trim trim_end domain none (before ++ after) ≡ before ++ after)
  kept_lem before body after head f h c g = (
    kept-append before (head ∷ (body ++ after)) f
        ∙ ap (λ ls. before ++ ls)
            (kept-opens head (body ++ after) h
              ∙ (kept-block 1 body after c ∙ kept-foreign after g)),
    kept-append before after f ∙ ap (λ ls. before ++ ls) (kept-foreign after g),
  )

  without_block_lem :
      (ls rest : List Text)
      → All IsLine ls
      → kept trim trim_end domain none ls ≡ rest
      → remove_route trim trim_end domain no_faults (some (unlines ls))
        ≡ (ok tt, some (final_content trim trim_end domain (unlines rest)))
  unfolding remove_route without_block
  without_block_lem ls rest w h =
      ap (λ r. (ok tt, some (final_content trim trim_end domain (unlines r))))
        (ap (λ r. kept trim trim_end domain none r) (lines-unlines ls w) ∙ h)

  -- Without faults, removing a domain from a file of lines in which one line opens a block of the
  -- domain, and the block's braces close with the last line of its body, writes the lines around the
  -- block, trimmed at the end; and from a file of lines none of which opens such a block it takes no
  -- line away.
  pub remove_route_lem :
      (before body after : List Text) (head : Text)
      → All IsLine before
      → All IsLine (head ∷ body)
      → All IsLine after
      → IsForeign trim trim_end domain before
      → is_domain_line trim trim_end domain head ≡ true
      → ClosesAtEnd 1 body
      → IsForeign trim trim_end domain after
      → let rest = final_content trim trim_end domain (unlines (before ++ after)) in
        (remove_route trim trim_end domain no_faults
            (some (unlines (before ++ head ∷ (body ++ after))))
          ≡ (ok tt, some rest))
        × (remove_route trim trim_end domain no_faults (some (unlines (before ++ after)))
            ≡ (ok tt, some rest))
  remove_route_lem before body after head a (b, c) d f h e g =
      let both = kept_lem before body after head f h e g in
      (
        without_block_lem (before ++ head ∷ (body ++ after)) (before ++ after)
            (All-append IsLine before (head ∷ (body ++ after)) a
              (b, All-append IsLine body after c d))
            both.0,
        without_block_lem (before ++ after) (before ++ after) (All-append IsLine before after a d)
            both.1,
      )

blocks_ok :
    (routes : List RouteConfig)
    → is_some (blocks routes)
      ≡ not (any (λ (r : RouteConfig). not (is_some (reverse_proxy r.upstream))) routes)
blocks_ok [] = refl
blocks_ok (r ∷ routes) = ground (arith, blocks_ok routes)

-- The file is written only where every route has an upstream: else the code panics.
render_caddyfile_ok :
    (routes : List RouteConfig)
    → is_some (render_caddyfile routes)
      ≡ not (any (λ (r : RouteConfig). not (is_some (reverse_proxy r.upstream))) routes)
unfolding render_caddyfile
render_caddyfile_ok [] = refl
render_caddyfile_ok (r ∷ routes) = ground (arith, blocks_ok routes)
