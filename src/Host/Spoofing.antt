-- ===== src/Host/Spoofing.antt =====
-- internal/middleware/tenant.go: which hosts resolve to a plant.
use gatstogo.Base.{
  ℕ, ◌-◌, ◌≡◌, refl, true, false, some, List, [], ◌∷◌, ◌++◌, Text, text_eq_iff, codes, is_empty,
  length, drop, leb, take, arith, ◌==◌, zero, suc, ap, sym, ◌∙◌, All, length-append, text_eq_refl,
  le→leb,
}
use gatstogo.Host.{
  strip_host_port, first_label, has_dot, extract_subdomain, has_suffix, has_base_domain_suffix,
  is_reserved, tenant_slug,
}

take-drop {ℓ} : {A : Type ℓ} (n : ℕ) (xs : List A) → take n xs ++ drop n xs ≡ xs
take-drop zero xs = refl
take-drop (suc n) [] = refl
take-drop (suc n) (x ∷ xs) = ap (λ ys. x ∷ ys) (take-drop n xs)

drop-length {ℓ} : {A : Type ℓ} (xs ys : List A) → drop (length xs) (xs ++ ys) ≡ ys
drop-length [] ys = refl
drop-length (x ∷ xs) ys = drop-length xs ys

has_suffix-split :
    (s suffix : Text) → has_suffix s suffix ≡ true → take (length s - length suffix) s ++ suffix ≡ s
unfolding has_suffix
has_suffix-split s suffix h =
    let same : drop (length s - length suffix) s ≡ suffix =
      (text_eq_iff (drop (length s - length suffix) s) suffix).0 (ground arith) in
    ap (λ t. take (length s - length suffix) s ++ t) (sym same)
    ∙ take-drop (length s - length suffix) s

has_suffix-append : (s suffix : Text) → has_suffix (s ++ suffix) suffix ≡ true
unfolding has_suffix
has_suffix-append s suffix =
    let fits : leb (length suffix) (length (s ++ suffix)) ≡ true =
      le→leb _ _ (omega (arith, length-append s suffix)) in
    let n : length (s ++ suffix) - length suffix ≡ length s =
      omega (arith, length-append s suffix) in
    rw (fits, n, drop-length s suffix) (text_eq_refl suffix)

-- No character of the text is `c`.
abbrev pub Without : ℕ → Text → Type 0
Without c = All (λ x. (x == c) ≡ false)

-- Nothing, or a colon and what follows it.
abbrev IsPort : Text → Type 0
IsPort [] = Unit {0}
IsPort (c ∷ s) = (c == b':') ≡ true

strip_host_port-port :
    (s port : Text) → Without b':' s → IsPort port → strip_host_port (s ++ port) ≡ s
unfolding strip_host_port
strip_host_port-port [] [] w p = refl
strip_host_port-port [] (c ∷ port) w p = rw p refl
strip_host_port-port (c ∷ s) port w p = rw (w.0, strip_host_port-port s port w.1 p) refl

first_label-dot : (s t : Text) → Without b'.' s → first_label (s ++ b'.' ∷ t) ≡ s
unfolding first_label
first_label-dot [] t w = refl
first_label-dot (c ∷ s) t w = rw (w.0, first_label-dot s t w.1) refl

has_dot-dot : (s t : Text) → has_dot (s ++ b'.' ∷ t) ≡ true
unfolding has_dot
has_dot-dot [] t = refl
has_dot-dot (c ∷ s) t = rw (has_dot-dot s t) (ground arith)

-- Whatever Host header a request carries, the slug that Tenant looks up is the first label of the
-- host, is no reserved name, and the host without its port ends in a dot and the base domain, which
-- is not empty.
pub tenant_slug_sound :
    (host base slug : Text)
    → tenant_slug host base ≡ some slug
    → (pre : Text) × (strip_host_port host ≡ pre ++ b'.' ∷ base)
      × (slug ≡ extract_subdomain host)
      × (is_reserved slug ≡ false)
      × (is_empty base ≡ false)
unfolding tenant_slug has_base_domain_suffix
tenant_slug_sound host base slug e =
    let bare = strip_host_port host in
    (
      take (length bare - length (codes "." ++ base)) bare,
      sym (has_suffix-split bare (codes "." ++ base) (ground arith)),
      ground arith,
      ground arith,
      ground arith,
    )

append-Without : (c : ℕ) (s t : Text) → Without c s → Without c t → Without c (s ++ t)
append-Without c [] t ws wt = wt
append-Without c (x ∷ s) t ws wt = (ws.0, append-Without c s t ws.1 wt)

-- A host that is a slug without dots, colons or a reserved name, a dot, the base domain, and a port or
-- none, resolves to that slug.
tenant_slug_complete :
    (slug base port : Text)
    → Without b'.' slug
    → Without b':' slug
    → Without b':' base
    → IsPort port
    → is_reserved slug ≡ false
    → is_empty base ≡ false
    → tenant_slug ((slug ++ b'.' ∷ base) ++ port) base ≡ some slug
unfolding tenant_slug extract_subdomain has_base_domain_suffix
tenant_slug_complete slug base port dots colons base_colons is_port free named =
    let bare : strip_host_port ((slug ++ b'.' ∷ base) ++ port) ≡ slug ++ b'.' ∷ base =
      strip_host_port-port (slug ++ b'.' ∷ base) port
        (append-Without b':' slug (b'.' ∷ base) colons (refl, base_colons)) is_port in
    let label = first_label-dot slug base dots in
    let dotted = has_dot-dot slug base in
    let suffix = has_suffix-append slug (b'.' ∷ base) in
    simp (bare, label, dotted, free, named, suffix) refl
