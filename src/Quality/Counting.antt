-- ===== src/Quality/Counting.antt =====
-- The map of findings against a search in the list, and the four parts of a comparison.
use vibecoding_dofe_ai.Base.{
  ℕ, suc, ◌+◌, ◌≡◌, ◌∙◌, sym, ap, refl, Bool, true, false, String, List, [], ◌∷◌, Option, none,
  some, length, ltb, if◌then◌else◌, ◌==◌, string_eq, nat_eq, str_eq_iff, arith, Bool-cases, inl,
  inr,
}
use vibecoding_dofe_ai.Quality.Findings.{
  Finding, severity_rank, get_entry, set_entry, is_worse, dedupe_from, dedupe_findings,
  by_fingerprint, Standing, only, agrees, conflicts, standing, is_only, is_agreement, is_conflict,
  fingerprints_of, compare_second_opinion_findings,
}

-- The worse of two findings, the first if they are equally severe.
abbrev worse : Option Finding → Option Finding → Option Finding
worse none b = b
worse (some a) none = some a
worse (some a) (some b) =
    if ltb (severity_rank a.severity) (severity_rank b.severity) then some b else some a

-- The first of the most severe findings with this fingerprint.
abbrev pub worst : String → List Finding → Option Finding
worst key [] = none
worst key (f ∷ rest) =
    let later = worst key rest in if f.fingerprint == key then worse (some f) later else later

-- The entry of one key is set.
get_entry-set_entry :
    (key : String) (f : Finding) (entries : List Finding)
    → get_entry key (set_entry f entries)
      ≡ (if f.fingerprint == key then some f else get_entry key entries)
get_entry-set_entry key f [] = refl
get_entry-set_entry key f (other ∷ rest) = elim (Bool-cases (other.fingerprint == f.fingerprint)) [
  | inl e ↦
      rw (e, ap (λ k. k == key) ((str_eq_iff other.fingerprint f.fingerprint).0 e))
        (elim (Bool-cases (f.fingerprint == key)) [ inl g ↦ rw g refl | inr g ↦ rw g refl ])
  | inr e ↦
      rw (e, get_entry-set_entry key f rest)
        (elim (Bool-cases (f.fingerprint == key)) [
          | inr g ↦ rw g refl
          | inl g ↦ elim (Bool-cases (other.fingerprint == key)) [
            | inr t ↦ rw (g, t) refl
            | inl t ↦ absurd (
                ground (
                  arith,
                  e,
                  ap (λ k. other.fingerprint == k) ((str_eq_iff f.fingerprint key).0 g),
                  t,
                ))
          ]
        ])
]

worse-none : (o : Option Finding) → worse o none ≡ o
worse-none none = refl
worse-none (some a) = refl

worse_assoc : (a b c : Option Finding) → worse (worse a b) c ≡ worse a (worse b c)
worse_assoc none b c = refl
worse_assoc (some a) none c = refl
worse_assoc (some a) (some b) none =
    elim (Bool-cases (ltb (severity_rank a.severity) (severity_rank b.severity))) [
      | inl e ↦ rw e refl
      | inr e ↦ rw e refl
    ]
worse_assoc (some a) (some b) (some c) =
    let x = severity_rank a.severity in
    let y = severity_rank b.severity in
    let z = severity_rank c.severity in
    elim (Bool-cases (ltb x y)) [
      | inl e ↦ elim (Bool-cases (ltb y z)) [
        | inl f ↦ let g : ltb x z ≡ true = ground (arith, e, f) in rw (e, f) (rw g refl)
        | inr f ↦ rw (e, f) (rw e refl)
      ]
      | inr e ↦ elim (Bool-cases (ltb y z)) [
        | inl f ↦ rw (e, f) refl
        | inr f ↦ let g : ltb x z ≡ false = ground (arith, e, f) in rw (e, f) (rw (e, g) refl)
      ]
    ]

set_if :
    (b : Bool) (key : String) (f : Finding) (entries : List Finding)
    → (f.fingerprint == key) ≡ false
    → get_entry key (if b then set_entry f entries else entries) ≡ get_entry key entries
set_if true key f entries differ = get_entry-set_entry key f entries ∙ rw differ refl
set_if false key f entries differ = refl

own_step :
    (f : Finding) (entries : List Finding) (o : Option Finding)
    → get_entry f.fingerprint entries ≡ o
    → get_entry f.fingerprint (if is_worse f o then set_entry f entries else entries)
      ≡ worse o (some f)
own_step f entries none e =
    get_entry-set_entry f.fingerprint f entries
    ∙ rw ((str_eq_iff f.fingerprint f.fingerprint).1 refl) refl
own_step f entries (some old) e =
    elim (Bool-cases (ltb (severity_rank old.severity) (severity_rank f.severity))) [
      | inl g ↦ rw g (
          get_entry-set_entry f.fingerprint f entries
          ∙ rw ((str_eq_iff f.fingerprint f.fingerprint).1 refl) refl)
      | inr g ↦ rw g e
    ]

get_entry-step :
    (key : String) (f : Finding) (entries : List Finding)
    → get_entry key
        (if is_worse f (get_entry f.fingerprint entries) then set_entry f entries else entries)
      ≡ (if f.fingerprint == key
          then worse (get_entry key entries) (some f)
          else get_entry key entries)
get_entry-step key f entries = elim (Bool-cases (f.fingerprint == key)) [
  | inl e ↦ rw e (
      rw⁻¹ ((str_eq_iff f.fingerprint key).0 e)
        (own_step f entries (get_entry f.fingerprint entries) refl))
  | inr e ↦ rw e (set_if (is_worse f (get_entry f.fingerprint entries)) key f entries e)
]

get_entry-dedupe_from :
    (key : String) (findings entries : List Finding)
    → get_entry key (dedupe_from entries findings)
      ≡ worse (get_entry key entries) (worst key findings)
unfolding dedupe_from
get_entry-dedupe_from key [] entries = sym (worse-none (get_entry key entries))
get_entry-dedupe_from key (f ∷ rest) entries =
    get_entry-dedupe_from key rest
      (if is_worse f (get_entry f.fingerprint entries) then set_entry f entries else entries)
    ∙ rw (get_entry-step key f entries) (elim (Bool-cases (f.fingerprint == key)) [
      | inl e ↦ rw e (worse_assoc (get_entry key entries) (some f) (worst key rest))
      | inr e ↦ rw e refl
    ])

-- For every fingerprint, the deduplicated list of findings has the first of the most severe
-- findings with this fingerprint, and none when the list has none: the loop over a map agrees with
-- a search in the list.
pub dedupe_findings-worst :
    (key : String) (findings : List Finding)
    → get_entry key (dedupe_findings findings) ≡ worst key findings
unfolding dedupe_findings
dedupe_findings-worst key findings = get_entry-dedupe_from key findings []

-- Each finding of the primary map stands in one way to the second map.
module _ (theirs : List Finding) where
  abbrev part : (Standing → Bool) → List Finding → ℕ
  part test mine = length (fingerprints_of test mine theirs)

  part-cons :
      (f : Finding) (rest : List Finding) (s : Standing)
      → standing f (get_entry f.fingerprint theirs) ≡ s
      → part is_only rest + (part is_agreement rest + part is_conflict rest) ≡ length rest
      → part is_only (f ∷ rest) + (part is_agreement (f ∷ rest) + part is_conflict (f ∷ rest))
        ≡ suc (length rest)
  part-cons f rest only e h = rw e (omega (arith, h))
  part-cons f rest agrees e h = rw e (omega (arith, h))
  part-cons f rest conflicts e h = rw e (omega (arith, h))

  parts_lem :
      (mine : List Finding)
      → part is_only mine + (part is_agreement mine + part is_conflict mine) ≡ length mine
  parts_lem [] = refl
  parts_lem (f ∷ rest) =
      part-cons f rest (standing f (get_entry f.fingerprint theirs)) refl (parts_lem rest)

-- The counts of the comparison of two reviewers partition the entries of the primary map: primary-
-- only, agreements and conflicts together are all of them.
pub compare-parts :
    (primary secondary : List Finding)
    → (compare_second_opinion_findings primary secondary).primary_only_count
        + ((compare_second_opinion_findings primary secondary).agreement_count
            + (compare_second_opinion_findings primary secondary).conflict_count)
      ≡ length (by_fingerprint [] primary)
unfolding compare_second_opinion_findings
compare-parts primary secondary =
    parts_lem (by_fingerprint [] secondary) (by_fingerprint [] primary)
