-- ===== src/Base/Maps.antt =====
-- Go's map[string]V, read by m[k]: a missing key gives the zero value, so a map whose keys are
-- never enumerated is the function from keys to values.
use Prim.Native.String.{String}
use mathlib.Core.Path.{◌≡◌}
use mathlib.Core.Logic.{◌≢◌}
use native.Mathlib.Omega.{arith}
use text.Mathlib.Text.{◌==◌ as str_eq}
use text.Mathlib.TextEquality.{eq_iff}
use gammaflow.Base.Tests.{if◌then◌else◌}

module _ {ℓ} {V : Type ℓ} where
  -- m[k] = v
  abbrev pub update : (String → V) → String → V → String → V
  update m k v j = if str_eq j k then v else m j

  pub update_self : (m : String → V) (k : String) (v : V) → update m k v k ≡ v
  update_self m k v = ground (arith, eq_iff k k)

  pub update_ne : (m : String → V) (k j : String) (v : V) → j ≢ k → update m k v j ≡ m j
  update_ne m k j v h = ground (arith, eq_iff j k)
