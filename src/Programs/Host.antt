-- ===== src/Programs/Host.antt =====
-- src/lib/server.rs and src/lib/client.rs: the address to bind. The parser of addresses is the standard
-- library's, and stands here as a parameter.
use mobiletunnel.Prelude.{
  ◌≡◌, ◌∙◌, refl, [], ◌∷◌, ◌++◌, Option, none, some, ◌⊎◌, inl, inr, Option-cases,
}
use mobiletunnel.Text.{Text, strip_prefix, strip_suffix, codes}
use mobiletunnel.Text.Laws.{strip_suffix-one}

-- `unwrap_or`.
abbrev or_else {ℓ} : {A : Type ℓ} → Option A → A → A
or_else none x = x
or_else (some y) x = y

-- `or_else` of a result.
abbrev instead {ℓ} : {A : Type ℓ} → Option A → Option A → Option A
instead none x = x
instead (some y) x = some y

unfoldable pub ipv6_stripped : Text → Text
ipv6_stripped host =
    let h = or_else (strip_prefix host (codes "[")) host in or_else (strip_suffix h (codes "]")) h

module _ {ℓ} {IpAddr : Type ℓ} (parse_ip : Text → Option IpAddr) where
  unfoldable pub parse_ip_from_uri_host : Text → Option IpAddr
  parse_ip_from_uri_host host = instead (parse_ip host) (parse_ip (ipv6_stripped host))

  -- If the parser takes no text that starts with a bracket: an address that it takes is taken as it is,
  -- and in brackets, as in a URI.
  pub parse_ip_from_uri_host-some :
      (brackets : (s : Text) → parse_ip (b'[' ∷ s) ≡ none) (host : Text) (ip : IpAddr)
      → parse_ip host ≡ some ip
      → (parse_ip_from_uri_host host ≡ some ip)
        × (parse_ip_from_uri_host (b'[' ∷ (host ++ (b']' ∷ []))) ≡ some ip)
  unfolding parse_ip_from_uri_host ipv6_stripped
  parse_ip_from_uri_host-some brackets host ip e =
      (rw e refl, rw (brackets (host ++ (b']' ∷ [])), strip_suffix-one host b']') e)

  -- What is taken: an address as it is, or what stands in the brackets.
  pub parse_ip_from_uri_host-inv :
      (host : Text) (ip : IpAddr)
      → parse_ip_from_uri_host host ≡ some ip
      → (parse_ip host ≡ some ip) ⊎ (parse_ip (ipv6_stripped host) ≡ some ip)
  unfolding parse_ip_from_uri_host
  parse_ip_from_uri_host-inv host ip e = elim (Option-cases (parse_ip host)) [
    | inl none_found ↦ inr (rw none_found at e)
    | inr (other, found) ↦ inl (found ∙ (rw found at e))
  ]
