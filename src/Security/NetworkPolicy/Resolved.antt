-- ===== src/Security/NetworkPolicy/Resolved.antt =====
-- Which endpoints are resolved.
use mailbridge_mcp.Common.{◌∙◌}
use mailbridge_mcp.Common.{
  ◌≡◌, ◌⊎◌, ap, sym, String, Bool, true, false, not, ◌||◌, Option, List, [], ◌∷◌, any, ltb, length,
  arith, Result, ok, Bool-cases, inl, inr,
}
use mailbridge_mcp.Common.Text.{is_empty, utf16_length, includes, trim}
use mailbridge_mcp.Common.Tables.{All}
use mailbridge_mcp.Send.Policy.{>>=-eq-ok}
use mailbridge_mcp.Security.NetworkPolicy.{
  Ip, ResolvedPublicEndpoint, is_address, is_public_address, first_of, strip_first, strip_last,
  resolve_public_endpoint,
}

every-IsPublic :
    (test : String → Bool) (addresses : List String)
    → any (λ a. not (test a)) addresses ≡ false
    → All (λ a. test a ≡ true) addresses
unfolding any
every-IsPublic test [] h = tt
every-IsPublic test (a ∷ rest) h = (
  ground (arith, h, Bool-cases (test a)),
  every-IsPublic test rest (ground (arith, h, Bool-cases (test a))),
)

module _ (ip : String → Option Ip) (lookup : String → Result (List String)) where
  -- An endpoint with the addresses of which it is the first, all of them public.
  pub record IsFirst (addresses : List String) (endpoint : ResolvedPublicEndpoint) : Type 0 where
    pub others : List String
    pub first : addresses ≡ endpoint.address ∷ others
    pub counted : endpoint.address_count ≡ length addresses
    pub public : All (λ a. is_public_address ip lookup a ≡ true) addresses

  first_of-IsFirst :
      (hostname : String) (addresses : List String) (endpoint : ResolvedPublicEndpoint)
      → first_of ip lookup hostname addresses ≡ ok endpoint
      → IsFirst addresses endpoint × (endpoint.hostname ≡ hostname)
  first_of-IsFirst hostname [] endpoint h = absurd (ground (arith, h))
  first_of-IsFirst hostname (a ∷ rest) endpoint h =
      elim (Bool-cases (any (λ x. not (is_public_address ip lookup x)) (a ∷ rest))) [
        | inl blocked ↦ absurd (ground (arith, h, blocked))
        | inr clear ↦ (
          record {
            others = rest;
            first = ground (arith, h, clear);
            counted = ground (arith, h, clear);
            public = every-IsPublic (is_public_address ip lookup) (a ∷ rest) clear;
          },
          ground (arith, h, clear),
        )
      ]

  -- An endpoint that is resolved has the first of addresses that are all public and that are all that
  -- its host name stands for: the name itself where that is an address, and the whole answer to one
  -- lookup of it otherwise.
  pub resolve_public_endpoint-IsFirst :
      (hostname : String) (endpoint : ResolvedPublicEndpoint)
      → resolve_public_endpoint ip lookup hostname ≡ ok endpoint
      → (addresses : List String) × IsFirst addresses endpoint
        × ((addresses ≡ endpoint.hostname ∷ []) ⊎ (lookup endpoint.hostname ≡ ok addresses))
  unfolding resolve_public_endpoint
  resolve_public_endpoint-IsFirst hostname endpoint h =
      let normalized = strip_last (strip_first (trim hostname)) in
      elim (Bool-cases
        (is_empty normalized || (ltb 253 (utf16_length normalized) || includes normalized "\0"))) [
          | inl invalid ↦ absurd (ground (arith, h, invalid))
          | inr valid ↦ elim (Bool-cases (is_address (ip normalized))) [
            | inl literal ↦
                let (is_first, named) =
                  first_of-IsFirst normalized (normalized ∷ []) endpoint
                    (ground (arith, h, valid, literal)) in
                (normalized ∷ [], is_first, inl (ap (λ name. name ∷ []) (sym named)))
            | inr name ↦
                let (addresses, answered, taken) =
                  >>=-eq-ok (lookup normalized) (first_of ip lookup normalized)
                    (ground (arith, h, valid, name)) in
                let (is_first, named) = first_of-IsFirst normalized addresses endpoint taken in
                (addresses, is_first, inr (ap lookup named ∙ answered))
          ]
        ]
