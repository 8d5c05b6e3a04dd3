-- ===== src/Config/RoundTrip.antt =====
-- Lists of peers and of addresses, written with commas and read back.
use Prim.Native.Char.{Char, code}
use gammaflow.Base.{
  ◌≡◌, ◌≢◌, refl, sym, ap, ◌∙◌, String, true, false, some, List, [], ◌∷◌, map, arith, ◌==◌, str_eq,
  eq_iff, eq→==,
}
use gammaflow.Raft.Types.{NodeId}
use gammaflow.Config.Text.{is_empty, trim_space, split, split_pair}
use gammaflow.Config.{named_peers, parse_peers}

-- The text does not have the character.
abbrev pub Lacks : Char → String → Type 0
Lacks sep String.[] = Unit
Lacks sep (String.◌∷◌ c s) = ((code c == code sep) ≡ false) × Lacks sep s

-- The characters of the first text stand before the second.
abbrev pub before : String → String → String
before String.[] r = r
before (String.◌∷◌ c s) r = String.◌∷◌ c (before s r)

abbrev pub joined : Char → List String → String
joined sep [] = String.[]
joined sep (p ∷ []) = p
joined sep (p ∷ q ∷ ps) = before p (String.◌∷◌ sep (joined sep (q ∷ ps)))

module _ (sep : Char) where
  here : (code sep == code sep) ≡ true
  here = eq→== (code sep) (code sep) refl

  split_last : (p : String) → Lacks sep p → split sep p ≡ p ∷ []
  unfolding split
  split_last String.[] h = refl
  split_last (String.◌∷◌ c s) h = rw (h.0, split_last s h.1) refl

  split_first :
      (p r : String) → Lacks sep p → split sep (before p (String.◌∷◌ sep r)) ≡ p ∷ split sep r
  unfolding split
  split_first String.[] r h = rw here refl
  split_first (String.◌∷◌ c s) r h = rw (h.0, split_first s r h.1) refl

  pub split_pair_first :
      (l r : String) → Lacks sep l → split_pair sep (before l (String.◌∷◌ sep r)) ≡ some (l, r)
  unfolding split_pair
  split_pair_first String.[] r h = rw here refl
  split_pair_first (String.◌∷◌ c s) r h = rw (h.0, split_pair_first s r h.1) refl

  abbrev pub AllLack : List String → Type 0
  AllLack [] = Unit
  AllLack (p ∷ ps) = Lacks sep p × AllLack ps

  pub split-joined :
      (p : String) (ps : List String) → AllLack (p ∷ ps) → split sep (joined sep (p ∷ ps)) ≡ p ∷ ps
  split-joined p [] h = split_last p h.0
  split-joined p (q ∷ ps) h =
      split_first p (joined sep (q ∷ ps)) h.0 ∙ ap (λ l. p ∷ l) (split-joined q ps h.1)

  joined-nonempty : (p : String) (ps : List String) → p ≢ "" → joined sep (p ∷ ps) ≢ ""
  joined-nonempty p [] h = h
  joined-nonempty String.[] (q ∷ ps) h = absurd (h refl)
  joined-nonempty (String.◌∷◌ c s) (q ∷ ps) h = λ e. absurd (ground (arith, ap is_empty e))

-- A peer as it is written, white space around it included, and its name.
pub record Spelled : Type 0 where
  pub raw : String
  pub name : NodeId

pub record IsSpelled (p : Spelled) : Type 0 where
  pub lacks : Lacks "," p.raw
  pub trims : trim_space p.raw ≡ p.name
  pub named : p.name ≢ ""

abbrev pub AllSpelled : List Spelled → Type 0
AllSpelled [] = Unit
AllSpelled (p ∷ ps) = IsSpelled p × AllSpelled ps

abbrev pub raws : List Spelled → List String
raws = map (λ p. p.raw)

raw-nonempty : (p : Spelled) → IsSpelled p → p.raw ≢ ""
unfolding trim_space
raw-nonempty p h e = absurd (h.named (sym h.trims ∙ ap trim_space e))

named_peers-raws :
    (ps : List Spelled) → AllSpelled ps → named_peers (raws ps) ≡ map (λ p. p.name) ps
unfolding named_peers
named_peers-raws [] h = refl
named_peers-raws (p ∷ ps) h =
    let given : str_eq p.name "" ≡ false = ground (arith, h.0.named, eq_iff p.name "") in
    rw (h.0.trims, given, named_peers-raws ps h.1) refl

raws-AllLack : (ps : List Spelled) → AllSpelled ps → AllLack "," (raws ps)
raws-AllLack [] h = tt
raws-AllLack (p ∷ ps) h = (h.0.lacks, raws-AllLack ps h.1)

-- A list of peers joined by commas, white space around the names included, is read back. (No name
-- is empty, and none has a comma.)
pub parse_peers-joined :
    (ps : List Spelled) → AllSpelled ps → parse_peers (joined "," (raws ps)) ≡ map (λ p. p.name) ps
unfolding parse_peers
parse_peers-joined [] h = refl
parse_peers-joined (p ∷ ps) h =
    let text = joined "," (raws (p ∷ ps)) in
    let given : str_eq text "" ≡ false =
      ground (arith, joined-nonempty "," p.raw (raws ps) (raw-nonempty p h.0), eq_iff text "") in
    rw (given, split-joined "," p.raw (raws ps) (raws-AllLack (p ∷ ps) h))
      (named_peers-raws (p ∷ ps) h)
