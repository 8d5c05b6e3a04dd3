-- ===== src/Config/Addresses.antt =====
-- The address flags, read back and refused.
use gammaflow.Base.{
  ◌≡◌, ◌≢◌, ◌⊎◌, ◌↔◌, inl, inr, refl, sym, ap, ◌∙◌, String, Bool-cases, false, Option-cases, none,
  some, List, [], ◌∷◌, map, arith, str_eq, eq_iff, update, In,
}
use mathlib.Core.Path.{subst}
use gammaflow.Config.Text.{is_empty, trim_space, split, split_pair}
use gammaflow.Config.{
  Addrs, ConfigError, invalid_pair, ok, wrong, and_then, add_pair, add_pairs, parse_addr_map,
}
use gammaflow.Config.RoundTrip.{Lacks, before, joined, AllLack, split-joined, split_pair_first}

-- A pair as it is written, and its two sides without the white space.
pub record Pair : Type 0 where
  pub raw : String
  pub left : String
  pub right : String

pub record IsPair (p : Pair) : Type 0 where
  pub lacks : Lacks "," p.raw
  pub trims : trim_space p.raw ≡ before p.left (String.◌∷◌ "=" p.right)
  pub first : Lacks "=" p.left

abbrev pub AllPairs : List Pair → Type 0
AllPairs [] = Unit
AllPairs (p ∷ ps) = IsPair p × AllPairs ps

abbrev pub raws : List Pair → List String
raws = map (λ p. p.raw)

-- The map of the pairs in their order: of two pairs with one name the later counts.
abbrev pub table : List Pair → Addrs → Addrs
table [] m = m
table (p ∷ ps) m = table ps (update m (trim_space p.left) (some (trim_space p.right)))

before-nonempty : (l r : String) → str_eq (before l (String.◌∷◌ "=" r)) "" ≡ false
before-nonempty l r =
    let text = before l (String.◌∷◌ "=" r) in ground (arith, before-ne l r, eq_iff text "")
  where
    before-ne : (l r : String) → before l (String.◌∷◌ "=" r) ≢ ""
    before-ne String.[] r = λ e. absurd (ground (arith, ap is_empty e))
    before-ne (String.◌∷◌ c s) r = λ e. absurd (ground (arith, ap is_empty e))

add_pair-IsPair :
    (p : Pair) (m : Addrs)
    → IsPair p
    → add_pair p.raw m ≡ ok (update m (trim_space p.left) (some (trim_space p.right)))
unfolding add_pair
add_pair-IsPair p m h =
    rw (h.trims, before-nonempty p.left p.right, split_pair_first "=" p.left p.right h.first) refl

add_pairs-raws :
    (ps : List Pair) (m : Addrs) → AllPairs ps → add_pairs (raws ps) m ≡ ok (table ps m)
unfolding add_pairs
add_pairs-raws [] m h = refl
add_pairs-raws (p ∷ ps) m h =
    ap (λ r. and_then r (add_pairs (raws ps))) (add_pair-IsPair p m h.0)
    ∙ add_pairs-raws ps (update m (trim_space p.left) (some (trim_space p.right))) h.1

raws-AllLack : (ps : List Pair) → AllPairs ps → AllLack "," (raws ps)
raws-AllLack [] h = tt
raws-AllLack (p ∷ ps) h = (h.0.lacks, raws-AllLack ps h.1)

-- Pairs joined by commas are read back as the map of the pairs, of which the later counts where
-- two have one name. (No written pair has a comma, and without the white space around it a pair is
-- its left side, without `=`, then `=`, then its right side.)
pub parse_addr_map-joined :
    (p : Pair) (ps : List Pair)
    → AllPairs (p ∷ ps)
    → parse_addr_map (joined "," (raws (p ∷ ps))) ≡ ok (table (p ∷ ps) (λ _. none))
unfolding parse_addr_map
parse_addr_map-joined p ps h =
    ap (λ l. add_pairs l (λ _. none)) (split-joined "," p.raw (raws ps) (raws-AllLack (p ∷ ps) h))
    ∙ add_pairs-raws (p ∷ ps) (λ _. none) h

-- A piece that is not white space and has no `=`.
pub record IsBad (piece : String) : Type 0 where
  pub given : trim_space piece ≢ ""
  pub no_sign : split_pair "=" (trim_space piece) ≡ none

add_pair-cases :
    (p : String) (m : Addrs)
    → ((m' : Addrs) × (add_pair p m ≡ ok m') × ¬ IsBad p)
      ⊎ (IsBad p × (add_pair p m ≡ wrong (invalid_pair (trim_space p))))
unfolding add_pair
add_pair-cases p m = elim (Bool-cases (str_eq (trim_space p) "")) [
  | inl empty ↦
      let blank : trim_space p ≡ "" = ground (arith, empty, eq_iff (trim_space p) "") in
      inl (m, rw empty refl, λ b. absurd (b.given blank))
  | inr given ↦ elim (Option-cases (split_pair "=" (trim_space p))) [
    | inl no_sign ↦ inr (
      record { given = ground (arith, given, eq_iff (trim_space p) ""); no_sign = no_sign },
      rw (given, no_sign) refl,
    )
    | inr ((l, r), both) ↦ inl (
      update m (trim_space l) (some (trim_space r)),
      rw (given, both) refl,
      λ b. absurd (ground (arith, both, b.no_sign)),
    )
  ]
]

IsBad-fails :
    (ps : List String) (m : Addrs) (p : String)
    → In p ps
    → IsBad p
    → (e : ConfigError) × (add_pairs ps m ≡ wrong e)
unfolding add_pairs
IsBad-fails [] m p h b = absurd h
IsBad-fails (q ∷ ps) m p h b = elim (add_pair-cases q m) [
  | inr (_, fails) ↦ (_, ap (λ r. and_then r (add_pairs ps)) fails)
  | inl (m', fine, good) ↦ elim h [
    | inl same ↦ absurd (good (subst IsBad same b))
    | inr later ↦
        let (e, fails) = IsBad-fails ps m' p later b in
        (e, ap (λ r. and_then r (add_pairs ps)) fine ∙ fails)
  ]
]

fails-IsBad :
    (ps : List String) (m : Addrs) (e : ConfigError)
    → add_pairs ps m ≡ wrong e
    → (p : String) × In p ps × IsBad p
unfolding add_pairs
fails-IsBad [] m e h = absurd (ground (arith, h))
fails-IsBad (q ∷ ps) m e h = elim (add_pair-cases q m) [
  | inr (b, _) ↦ (q, inl refl, b)
  | inl (m', fine, good) ↦
      let (p, i, b) = fails-IsBad ps m' e (ap (λ r. and_then r (add_pairs ps)) (sym fine) ∙ h) in
      (p, inr i, b)
]

-- An address flag is refused exactly if a piece of it between commas is more than white space and
-- has no `=`.
pub parse_addr_map_fails_iff :
    (s : String)
    → ((e : ConfigError) × (parse_addr_map s ≡ wrong e))
      ↔ ((p : String) × In p (split "," s) × IsBad p)
unfolding parse_addr_map
parse_addr_map_fails_iff s = (
  λ h. fails-IsBad (split "," s) (λ _. none) h.0 h.1,
  λ h. IsBad-fails (split "," s) (λ _. none) h.0 h.1 h.2,
)
