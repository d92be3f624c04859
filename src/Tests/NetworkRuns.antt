-- ===== src/Tests/NetworkRuns.antt =====
-- Runs of the resolution of endpoints.
use mailbridge_mcp.Common.{
  ◌≡◌, ◌⊎◌, refl, String, true, false, Option, some, none, List, [], ◌∷◌, str_eq, any,
  if◌then◌else◌, Result, ok,
}
use mailbridge_mcp.Common.Text.{utf16_length, trim, trim_start, trim_end, is_space, includes}
use mailbridge_mcp.Security.NetworkPolicy.{
  Ip, ResolvedPublicEndpoint, mapped_ipv4, is_public_address, resolve_public_endpoint,
}
use mailbridge_mcp.Security.NetworkPolicy.Resolved.{IsFirst, resolve_public_endpoint-IsFirst}

network_code : Unit {0}
unfolding utf16_length trim trim_start trim_end is_space includes any mapped_ipv4 is_public_address
    resolve_public_endpoint
network_code = tt

-- Three addresses that are known, and a name for the first.
abbrev ip : String → Option Ip
ip s =
    if str_eq s "8.8.8.8"
    then some (Ip.v4 134744072)
    else if str_eq s "10.0.0.1"
    then some (Ip.v4 167772161)
    else if str_eq s "::ffff:7f00:1"
    then some (Ip.v6 281472812449793)
    else none

abbrev lookup : String → Result (List String)
lookup s = ok ("8.8.8.8" ∷ [])

public_v4 : is_public_address ip lookup "8.8.8.8" ≡ true
unfolding network_code
public_v4 = refl

private_v4 : is_public_address ip lookup "10.0.0.1" ≡ false
unfolding network_code
private_v4 = refl

mapped_loopback : is_public_address ip lookup "::ffff:7f00:1" ≡ false
unfolding network_code
mapped_loopback = refl

abbrev endpoint : ResolvedPublicEndpoint
endpoint = record { hostname = "mail.x.org"; address = "8.8.8.8"; address_count = 1 }

resolves : resolve_public_endpoint ip lookup " mail.x.org" ≡ ok endpoint
unfolding network_code
resolves = refl

resolve_public_endpoint-IsFirst_example :
    (addresses : List String) × IsFirst ip lookup addresses endpoint
    × ((addresses ≡ endpoint.hostname ∷ []) ⊎ (lookup endpoint.hostname ≡ ok addresses))
resolve_public_endpoint-IsFirst_example =
    resolve_public_endpoint-IsFirst ip lookup " mail.x.org" endpoint resolves
