-- ===== src/Common/Text.antt =====
-- Texts that begin differently.
use Prim.Native.String.{String, ◌++◌, count}
use mathlib.Core.Path.{◌≡◌}
use mathlib.Core.Logic.{◌≢◌}
use mathlib.Core.Bool.{false}
use native.Mathlib.Omega.{arith}
use text.Mathlib.Text.{◌==◌}
use text.Mathlib.TextEquality.{eq_iff}
use text.Mathlib.TextLemmas.{append_inj}

-- Texts whose prefixes of one length differ are apart.
pub apart : (p q s t : String) → count p ≡ count q → (p == q) ≡ false → p ++ s ≢ q ++ t
apart p q s t same differ e = ground (arith, eq_iff p q, (append_inj e same).0)
