-- ===== src/Text.antt =====
-- Text that the program cuts or scans, as the list of its code units.
use Prim.Native.Char.{code}
use garba_partner.Prelude.{
  ℕ, String, Bool, true, false, ◌&&◌, List, [], ◌∷◌, ◌==◌, ◌≡◌, refl, arith,
}

-- The code points of a literal: its code units, if it is ASCII.
abbrev pub codes : String → List ℕ
codes String.[] = []
codes (String.◌∷◌ c s) = code c ∷ codes s

abbrev pub same_text : List ℕ → List ℕ → Bool
same_text [] [] = true
same_text (a ∷ as') (b ∷ bs) = a == b && same_text as' bs
same_text _ _ = false

pub same_text_refl : (t : List ℕ) → same_text t t ≡ true
same_text_refl [] = refl
same_text_refl (a ∷ t) = let rest = same_text_refl t in ground (arith, rest)
