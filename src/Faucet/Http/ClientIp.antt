-- ===== src/Faucet/Http/ClientIp.antt =====
-- faucet/clientip.go: the address that the per-IP window is keyed on. The peer's host, which
-- `net.SplitHostPort` gives, is the argument `remote`.
use gno_mcp.Prelude.{
  ℕ, ◌+◌, ◌-◌, ◌≤◌, ◌≡◌, ◌≢◌, refl, Bytes, is_empty, is_empty-append, split_on, split_on-append,
  trim_space, Option, none, some, List, [], ◌∷◌, ◌++◌, arith, if◌then◌else◌, ltb, length,
  length-append, get_elem?, get_elem?-append_right,
}
use gno_mcp.Prelude.Int.{ℤ, pos, leb_ℤ, pos_part}

-- hostOnly, with the result of `net.SplitHostPort` for the address
abbrev pub host_only : Bytes → Option Bytes → Bytes
host_only addr none = addr
host_only addr (some host) = host

-- `parts[idx]`, or `remote` where the index is out of range
abbrev pub entry_or : Bytes → Option Bytes → Bytes
entry_or remote none = remote
entry_or remote (some part) = trim_space part

-- The entry that the proxies' count points at: `idx = len(parts) - trustedProxies`.
unfoldable pub forwarded : Bytes → List Bytes → ℕ → Bytes
forwarded remote parts proxies =
    if ltb (length parts) proxies
    then remote
    else entry_or remote (get_elem? parts (length parts - proxies))

-- clientIP
unfoldable pub client_ip : Bytes → Bytes → ℤ → Bytes
unfolding forwarded
client_ip remote xff proxies =
    if leb_ℤ proxies (pos 0)
    then remote
    else if is_empty xff
    then remote
    else forwarded remote (split_on b',' xff) (pos_part proxies)

forwarded-append :
    (remote : Bytes) (xs ys : List Bytes) (proxies : ℕ)
    → proxies ≤ length ys
    → forwarded remote (xs ++ ys) proxies ≡ forwarded remote ys proxies
unfolding forwarded
forwarded-append remote xs ys proxies fits =
    let e : length (xs ++ ys) - proxies ≡ length xs + (length ys - proxies) =
      omega (arith, length-append xs ys) in
    ground (arith, length-append xs ys, get_elem?-append_right xs ys (length ys - proxies), e)

-- What a client writes into the header itself changes nothing: with as many entries behind it as
-- there are trusted proxies, any text in front of them leaves the address as it is.
pub client_ip_unforgeable :
    (remote forged honest : Bytes) (proxies : ℕ)
    → honest ≢ []
    → proxies ≤ length (split_on b',' honest)
    → client_ip remote (forged ++ (b',' ∷ honest)) (pos proxies)
      ≡ client_ip remote honest (pos proxies)
unfolding client_ip
client_ip_unforgeable remote forged [] proxies some_text fits = absurd (some_text refl)
client_ip_unforgeable remote forged (c ∷ honest) proxies some_text fits =
    let parts = split_on b',' (c ∷ honest) in
    rw (is_empty-append forged (c ∷ honest) b',', split_on-append b',' forged (c ∷ honest))
      (rw (forwarded-append remote (split_on b',' forged) parts proxies fits))
