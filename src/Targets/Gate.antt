-- ===== src/Targets/Gate.antt =====
-- What the server may call when the policy lets a target pass.
use mathlib.Core.Path.{subst}
use vibecoding_dofe_ai.Base.{
  ℕ, ◌≡◌, ◌∙◌, sym, ap, refl, Bool, true, false, not, ◌&&◌, ◌||◌, String, List, [], ◌∷◌, Option,
  none, some, any, All, includes, if◌then◌else◌, ◌==◌, string_eq, nat_eq, str_eq_iff, arith,
  Bool-cases, inl, inr,
}
use vibecoding_dofe_ai.Store.{Reply, answer, refusal, Error}
use vibecoding_dofe_ai.Targets.{
  Url, NetTools, TargetEnv, is_public_address, parse_target_url, parsed_target, parse_allowed_hosts,
  resolve_target_addresses, is_local_like, allows_private, is_empty, check_addresses, check_target,
  assert_loop_target_url_allowed,
}
use vibecoding_dofe_ai.Targets.Addresses.{IsAddressing, IsRemote, is_public_address-IsRemote}

-- What follows a guard that answers.
guard-answer :
    {A : Type 0} (b : Bool) (e : Error) (r : Reply A) (a : A)
    → (if b then refusal e else r) ≡ answer a
    → (b ≡ false) × (r ≡ answer a)
guard-answer true e r a p = absurd cc
guard-answer false e r a p = (refl, p)

not-false : (b : Bool) → not b ≡ false → b ≡ true
not-false true p = refl
not-false false p = absurd cc

none_fails :
    {A : Type 0} (f : A → Bool) (xs : List A)
    → any (λ x. not (f x)) xs ≡ false
    → All (λ x. f x ≡ true) xs
none_fails f [] p = tt
none_fails f (x ∷ xs) p = elim (Bool-cases (f x)) [
  | inl e ↦ (e, none_fails f xs (ground (arith, p, e)))
  | inr e ↦ absurd (ground (arith, p, e))
]

All-map :
    {A : Type 0} {P Q : A → Type 0} (f : (x : A) → P x → Q x) (xs : List A) → All P xs → All Q xs
All-map f [] all = tt
All-map f (x ∷ xs) (p, all) = (f x p, All-map f xs all)

module _ (tools : NetTools) (digits : String → List ℕ) where
  -- The target has no credentials and is called over HTTPS, its host is on the list, and its name
  -- was resolved to addresses outside the special blocks only.
  pub IsSafe : TargetEnv → Url → Type 0
  IsSafe env target =
      (target.username ≡ "")
      × (target.password ≡ "")
      × (target.protocol ≡ "https:")
      × (includes (parse_allowed_hosts tools env.allowlist) (tools.without_brackets target.hostname)
          ≡ true)
      × ((addresses : List String) × (resolve_target_addresses tools
              (tools.without_brackets target.hostname)
            ≡ answer addresses)
          × All (IsRemote tools digits) addresses)

  check_addresses-answer :
      (target other : Url) (r : Reply (List String))
      → IsAddressing tools digits
      → check_addresses tools false target r ≡ answer other
      → (target ≡ other)
        × ((addresses : List String) × (r ≡ answer addresses)
            × All (IsRemote tools digits) addresses)
  check_addresses-answer target other (refusal e) laws p = absurd cc
  check_addresses-answer target other (answer addresses) laws p =
      let q = guard-answer (any (λ a. not (is_public_address tools a)) addresses) _ _ _ p in
      let public = none_fails (is_public_address tools) addresses q.0 in
      (
        cc,
        (addresses, refl, All-map (is_public_address-IsRemote tools digits laws) addresses public),
      )

  parsed_target-answer :
      (o : Option Url) (target : Url)
      → parsed_target tools o ≡ answer target
      → (target.username ≡ "") × (target.password ≡ "")
  parsed_target-answer none target p = absurd cc
  parsed_target-answer (some url) target p =
      let q =
        guard-answer (not (url.protocol == "http:") && not (url.protocol == "https:")) _ _ _ p in
      let s = guard-answer (not (url.username == "") || not (url.password == "")) _ _ _ q.1 in
      let same : url ≡ target = cc in
      (
        sym (ap (λ (u : Url). u.username) same)
            ∙ (str_eq_iff url.username "").0 (ground (arith, s.0)),
        sym (ap (λ (u : Url). u.password) same)
            ∙ (str_eq_iff url.password "").0 (ground (arith, s.0)),
      )

  check_target-answer :
      (env : TargetEnv) (r : Reply Url) (target : Url)
      → IsAddressing tools digits
      → is_local_like tools env ≡ false
      → ((url : Url) → r ≡ answer url → (url.username ≡ "") × (url.password ≡ ""))
      → check_target tools env r ≡ answer target
      → IsSafe env target
  unfolding IsSafe
  check_target-answer env (refusal e) target laws remote plain p = absurd cc
  check_target-answer env (answer url) target laws remote plain p =
      let hosts = parse_allowed_hosts tools env.allowlist in
      let name = tools.without_brackets url.hostname in
      let local = is_local_like tools env in
      let https = guard-answer (not local && not (url.protocol == "https:")) _ _ _ p in
      let listed = guard-answer (not local && is_empty tools hosts) _ _ _ https.1 in
      let found =
        guard-answer (not (is_empty tools hosts) && not (includes hosts name)) _ _ _ listed.1 in
      let strict : allows_private tools env ≡ false = ground (arith, remote) in
      let checked =
        check_addresses-answer url target (resolve_target_addresses tools name) laws
          (rw⁻¹ strict found.1) in
      subst (IsSafe env) checked.0 (
        (plain url refl).0,
        (plain url refl).1,
        (str_eq_iff url.protocol "https:").0 (ground (arith, remote, https.0)),
        ground (arith, remote, listed.0, found.0),
        checked.1,
      )

  -- Outside a local environment, a target that the policy lets pass has no credentials, is called
  -- over HTTPS, and has its host on the list of allowed hosts. It resolves only to addresses of
  -- IPv4, plain or embedded in IPv6, outside 0/8, 10/8, 100.64/10, 127/8, 169.254/16, 172.16/12,
  -- 192.0.0/24, 192.0.2/24, 192.168/16, 198.18/15, 198.51.100/24, 203.0.113/24 and 224/3, and to
  -- addresses of IPv6 with a first group that is not 0 and lies outside fc00::/7, fe80::/10 and
  -- ff00::/8. The texts of addresses are taken to be as isIP and RFC 4291 describe them.
  pub assert_loop_target_url_allowed-IsSafe :
      (env : TargetEnv) (raw_url : String) (target : Url)
      → IsAddressing tools digits
      → is_local_like tools env ≡ false
      → assert_loop_target_url_allowed tools env raw_url ≡ answer target
      → IsSafe env target
  unfolding assert_loop_target_url_allowed
  assert_loop_target_url_allowed-IsSafe env raw_url target laws remote p =
      check_target-answer env (parse_target_url tools raw_url) target laws remote
        (parsed_target-answer (tools.parse_url raw_url)) p
