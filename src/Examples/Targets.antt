-- ===== src/Examples/Targets.antt =====
-- The theorems on the policy of targets, for one host on the list.
use text.Mathlib.Text.{starts_with}
use vibecoding_dofe_ai.Base.{
  ℕ, ◌<◌, ◌≡◌, ◌∙◌, sym, ap, refl, true, false, String, List, [], ◌∷◌, none, some, arith,
  if◌then◌else◌, ◌==◌, nat_eq, str_eq_iff, string_eq,
}
use vibecoding_dofe_ai.Store.{answer}
use vibecoding_dofe_ai.Targets.{
  Url, NetTools, TargetEnv, is_public_octets, assert_loop_target_url_allowed,
}
use vibecoding_dofe_ai.Targets.Addresses.{IsAddressing}
use vibecoding_dofe_ai.Targets.Ranges.{address_number, in_block, is_public_octets-in_block}
use vibecoding_dofe_ai.Targets.Gate.{IsSafe, assert_loop_target_url_allowed-IsSafe}

abbrev sample_target : Url
sample_target = record {
  protocol = "https:";
  hostname = "app.example";
  username = "";
  password = "";
}

abbrev sample_ipv6 : String
sample_ipv6 = "2606:2800:21f:cb07:6820:80da:af6b:8b2c"

abbrev sample_family : String → ℕ
sample_family address =
    if address == "93.184.216.34" then 4 else if address == sample_ipv6 then 6 else 0

abbrev sample_digits : String → List ℕ
sample_digits address = if address == sample_ipv6 then 2 ∷ 6 ∷ 0 ∷ 6 ∷ [] else []

abbrev sample_net : NetTools
sample_net = record {
  parse_url = λ raw. some sample_target;
  is_ip = sample_family;
  octets = λ address. some 93 ∷ some 184 ∷ some 216 ∷ some 34 ∷ [];
  mapped_ipv4 = λ address. none;
  without_brackets = λ name. name;
  split_commas = λ text. text ∷ [];
  trim = λ text. text;
  to_lower_case = λ text. text;
  resolve_host = λ name. answer ("93.184.216.34" ∷ sample_ipv6 ∷ []);
}

abbrev sample_production : TargetEnv
sample_production = record {
  node_env = some "production";
  allowlist = some "app.example";
  allow_private = none;
}

sample_six : (address : String) → sample_family address ≡ 6 → address ≡ sample_ipv6
sample_six address six = (str_eq_iff address sample_ipv6).0 (ground (arith, six))

first_four :
    (a b c d : ℕ)
    → some 93 ∷ some 184 ∷ some 216 ∷ some 34 ∷ [] ≡ some a ∷ some b ∷ some c ∷ some d ∷ []
    → (93 ≡ a) × (184 ≡ b) × (216 ≡ c) × (34 ≡ d)
first_four a b c d e = (cc, cc, cc, cc)

starts_at_3 : ¬ (starts_with sample_ipv6 "3" ≡ true)
starts_at_3 e = absurd cc

sample_net-IsAddressing : IsAddressing sample_net sample_digits
sample_net-IsAddressing = record {
  octets_small = λ address a b c d four e.
      let h = first_four a b c d e in
      (omega (arith, h.0), omega (arith, h.1), omega (arith, h.2), omega (arith, h.3));
  embedded = λ address mapped six e. absurd cc;
  group_short = λ address six.
      rw (sample_six address six)
        (omega arith, (omega arith, (omega arith, (omega arith, (omega arith, tt)))));
  starts_2 = λ address six e. (6 ∷ 0 ∷ 6 ∷ [], rw (sample_six address six) refl);
  starts_3 = λ address six e.
      absurd (starts_at_3 (sym (ap (λ a. starts_with a "3") (sample_six address six)) ∙ e));
}

allowed_example : IsSafe sample_net sample_digits sample_production sample_target
unfolding assert_loop_target_url_allowed is_public_octets
allowed_example =
    assert_loop_target_url_allowed-IsSafe sample_net sample_digits sample_production
      "https://app.example/" sample_target sample_net-IsAddressing refl refl

block_example :
    (in_block 167772160 16777216 (address_number 93 184 216 34) ≡ false)
    × (in_block 2886729728 1048576 (address_number 93 184 216 34) ≡ false)
    × (in_block 3232235520 65536 (address_number 93 184 216 34) ≡ false)
    × (in_block 2130706432 16777216 (address_number 93 184 216 34) ≡ false)
    × (in_block 2851995648 65536 (address_number 93 184 216 34) ≡ false)
    × (in_block 1681915904 4194304 (address_number 93 184 216 34) ≡ false)
    × (address_number 93 184 216 34 < 3758096384)
unfolding is_public_octets
block_example =
    is_public_octets-in_block 93 184 216 34 (omega arith) (omega arith) (omega arith) (omega arith)
      refl
