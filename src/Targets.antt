-- ===== src/Targets.antt =====
-- apps/api/src/modules/loops/loops-target-url-policy.ts: which addresses the server may call. The
-- parser of URLs, the texts' functions and the name service are parameters.
pub mod Ranges
pub mod Addresses
pub mod Gate
use text.Mathlib.Text.{starts_with}
use vibecoding_dofe_ai.Base.{
  ℕ, Bool, true, false, not, ◌&&◌, ◌||◌, String, List, [], ◌∷◌, map, Option, none, some, or_else,
  ltb, leb, any, filter, includes, if◌then◌else◌, ◌==◌, string_eq, nat_eq,
}
use vibecoding_dofe_ai.Store.{Reply, answer, refusal, bad_request}

pub record Url : Type 0 where
  pub protocol : String
  pub hostname : String
  pub username : String
  pub password : String

pub record NetTools : Type 0 where
  -- `new URL(...)`, none where it throws
  pub parse_url : String → Option Url
  -- `isIP`: 4, 6, or 0 for what is no address
  pub is_ip : String → ℕ
  -- `address.split('.').map(Number)`, none for what is no natural number
  pub octets : String → List (Option ℕ)
  -- the address after `::ffff:`, if it is written with dots
  pub mapped_ipv4 : String → Option String
  pub without_brackets : String → String
  pub split_commas : String → List String
  pub trim : String → String
  pub to_lower_case : String → String
  -- the addresses of a name, or an error
  pub resolve_host : String → Reply (List String)

pub record TargetEnv : Type 0 where
  pub node_env : Option String
  pub allowlist : Option String
  pub allow_private : Option String

abbrev pub local_like_envs : List String
local_like_envs = "dev" ∷ "development" ∷ "test" ∷ "local" ∷ []

abbrev pub true_values : List String
true_values = "1" ∷ "true" ∷ "yes" ∷ "on" ∷ []

-- An address of IPv4 by its four parts.
unfoldable pub is_public_octets : (first second third fourth : ℕ) → Bool
is_public_octets first second third fourth =
    if (first == 10) || ((first == 127) || ((first == 0) || leb 224 first))
    then false
    else if (first == 100) && (leb 64 second && leb second 127)
    then false
    else if (first == 169) && (second == 254)
    then false
    else if (first == 172) && (leb 16 second && leb second 31)
    then false
    else if (first == 192) && ((second == 0) || (second == 168))
    then false
    else if (first == 198) && ((second == 18) || ((second == 19) || (second == 51)))
    then false
    else if (first == 203) && (second == 0)
    then false
    else true

abbrev pub is_public_parts : List (Option ℕ) → Bool
is_public_parts (some first ∷ some second ∷ some third ∷ some fourth ∷ []) =
    is_public_octets first second third fourth
is_public_parts _ = false

module _ (tools : NetTools) where
  abbrev pub is_public_ipv4 : String → Bool
  is_public_ipv4 address = is_public_parts (tools.octets address)

  abbrev pub is_public_plain_ipv6 : String → Option String → Bool
  is_public_plain_ipv6 normalized (some mapped) = is_public_ipv4 mapped
  is_public_plain_ipv6 normalized none =
      (starts_with normalized "2" || starts_with normalized "3")
      && not (starts_with normalized "2001:db8")

  abbrev pub is_public_ipv6 : String → Bool
  is_public_ipv6 address =
      let normalized = tools.to_lower_case address in
      is_public_plain_ipv6 normalized (tools.mapped_ipv4 normalized)

  abbrev pub is_public_address : String → Bool
  is_public_address address =
      if tools.is_ip address == 4
      then is_public_ipv4 address
      else if tools.is_ip address == 6
      then is_public_ipv6 address
      else false

  abbrev pub parsed_target : Option Url → Reply Url
  parsed_target none = refusal (bad_request "Loop target URL must be a valid HTTP(S) URL.")
  parsed_target (some target) =
      if not (target.protocol == "http:") && not (target.protocol == "https:")
      then refusal (bad_request "Loop target URL must use HTTP or HTTPS.")
      else if not (target.username == "") || not (target.password == "")
      then refusal (bad_request "Loop target URL must not contain credentials.")
      else answer target

  abbrev pub parse_target_url : String → Reply Url
  parse_target_url raw_url = parsed_target (tools.parse_url raw_url)

  abbrev pub parse_allowed_hosts : Option String → List String
  parse_allowed_hosts value =
      filter (λ host. not (host == ""))
        (map (λ host. tools.to_lower_case (tools.trim host))
          (tools.split_commas (or_else value "")))

  abbrev pub unresolved : Reply (List String)
  unresolved = refusal (bad_request "Loop target URL hostname could not be resolved safely.")

  abbrev pub some_addresses : Reply (List String) → Reply (List String)
  some_addresses (refusal e) = unresolved
  some_addresses (answer []) = unresolved
  some_addresses (answer (a ∷ rest)) = answer (a ∷ rest)

  abbrev pub resolve_target_addresses : String → Reply (List String)
  resolve_target_addresses hostname =
      if not (tools.is_ip hostname == 0)
      then answer (hostname ∷ [])
      else some_addresses (tools.resolve_host hostname)

  abbrev pub is_local_like : TargetEnv → Bool
  is_local_like env = includes local_like_envs (tools.to_lower_case (or_else env.node_env "dev"))

  abbrev pub allows_private : TargetEnv → Bool
  allows_private env =
      is_local_like env && includes true_values (tools.to_lower_case (or_else env.allow_private ""))

  abbrev pub is_empty : List String → Bool
  is_empty [] = true
  is_empty (host ∷ rest) = false

  abbrev pub check_addresses : (allow_private : Bool) → Url → Reply (List String) → Reply Url
  check_addresses allow_private target (refusal e) = refusal e
  check_addresses allow_private target (answer addresses) =
      if not allow_private && any (λ a. not (is_public_address a)) addresses
      then refusal (
          bad_request
            "Loop target URL must not resolve to a private, loopback, link-local, or reserved address.")
      else answer target

  abbrev pub check_target : TargetEnv → Reply Url → Reply Url
  check_target env (refusal e) = refusal e
  check_target env (answer target) =
      let hostname = tools.without_brackets target.hostname in
      let allowed_hosts = parse_allowed_hosts env.allowlist in
      if not (is_local_like env) && not (target.protocol == "https:")
      then refusal (bad_request "Loop target URL must use HTTPS outside local environments.")
      else if not (is_local_like env) && is_empty allowed_hosts
      then refusal (
          bad_request
            "LOOPS_TARGET_URL_ALLOWLIST must list the release canary target hostname in production.")
      else if not (is_empty allowed_hosts) && not (includes allowed_hosts hostname)
      then refusal (bad_request "Loop target URL hostname is not allowlisted.")
      else check_addresses (allows_private env) target (resolve_target_addresses hostname)

  unfoldable pub assert_loop_target_url_allowed : TargetEnv → String → Reply Url
  assert_loop_target_url_allowed env raw_url = check_target env (parse_target_url raw_url)
