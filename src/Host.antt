-- ===== src/Host.antt =====
-- internal/middleware/tenant.go: ExtractSubdomain, IsMarketingHost, IsTenantHost, stripHostPort,
-- hasBaseDomainSuffix, and the test on the Host header in Tenant.
pub mod Spoofing
use gatstogo.Base.{
  ℕ, ◌-◌, Bool, true, false, not, ◌&&◌, ◌||◌, Option, none, some, List, [], ◌∷◌, ◌++◌, map, Text,
  text_eq, codes, is_empty, length, drop, leb, ltb, ◌==◌, if◌then◌else◌,
}

-- strings.Index(host, ":") and the slice before it.
unfoldable pub strip_host_port : Text → Text
strip_host_port [] = []
strip_host_port (c ∷ s) = let rest = strip_host_port s in if c == b':' then [] else c ∷ rest

-- strings.Split(host, ".")[0], and whether there is a dot.
unfoldable pub first_label : Text → Text
first_label [] = []
first_label (c ∷ s) = let rest = first_label s in if c == b'.' then [] else c ∷ rest

unfoldable pub has_dot : Text → Bool
has_dot [] = false
has_dot (c ∷ s) = c == b'.' || has_dot s

unfoldable pub extract_subdomain : Text → Text
unfolding strip_host_port first_label has_dot
extract_subdomain host =
    let bare = strip_host_port host in if has_dot bare then first_label bare else []

-- strings.HasSuffix.
unfoldable pub has_suffix : Text → Text → Bool
unfolding text_eq
has_suffix s suffix =
    leb (length suffix) (length s) && text_eq (drop (length s - length suffix) s) suffix

unfoldable pub has_base_domain_suffix : Text → Text → Bool
unfolding strip_host_port has_suffix
has_base_domain_suffix host base =
    not (is_empty base) && has_suffix (strip_host_port host) (codes "." ++ base)

-- The labels that are no plant's.
unfoldable pub is_reserved : Text → Bool
unfolding text_eq
is_reserved slug =
    is_empty slug
    || text_eq slug (codes "www")
    || text_eq slug (codes "admin")
    || text_eq slug (codes "api")

unfoldable is_tenant_host : Text → Text → Bool
unfolding extract_subdomain is_reserved has_base_domain_suffix
is_tenant_host host base =
    if is_reserved (extract_subdomain host) then false else has_base_domain_suffix host base

-- strings.EqualFold, by the simple folding of each letter, which is an argument.
equal_fold : (ℕ → ℕ) → Text → Text → Bool
unfolding text_eq
equal_fold fold s t = text_eq (map fold s) (map fold t)

unfoldable is_marketing_host : (ℕ → ℕ) → Text → Text → Bool
unfolding strip_host_port extract_subdomain equal_fold text_eq
is_marketing_host fold host base =
    let bare = strip_host_port host in
    let slug = extract_subdomain bare in
    if is_empty bare
    then false
    else if not (is_empty base)
        && (equal_fold fold bare base || equal_fold fold bare (codes "www." ++ base))
    then true
    else is_empty slug || text_eq slug (codes "www")

-- The slug that Tenant looks a plant up by, and none where it answers with the not-found page.
unfoldable pub tenant_slug : Text → Text → Option Text
unfolding extract_subdomain is_reserved has_base_domain_suffix
tenant_slug host base =
    let slug = extract_subdomain host in
    if is_reserved slug || not (has_base_domain_suffix host base) then none else some slug
