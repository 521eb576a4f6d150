-- ===== src/Scoring/Patterns.antt =====
-- SUBJECT_MATTER_PATTERNS of ai/floors.py.
use docket_pub.Prelude.{ℕ, Bool, List, [], ◌∷◌, Text}
use docket_pub.Regex.{Regex, boundary, seq, alt, lit, spaces, phrase, one_of, found}
use docket_pub.Prelude.{codes}

pub data Matter : Type 0 where
  surveillance_alpr police_oversight eminent_domain : Matter

-- The keys of the dict, in its order.
abbrev pub matters : List Matter
matters = surveillance_alpr ∷ police_oversight ∷ eminent_domain ∷ []

-- `\b(…|…)\b`
abbrev bounded : Regex → Regex
bounded r = seq boundary (seq r boundary)

unfoldable pub pattern_of : Matter → Regex
pattern_of surveillance_alpr = bounded (
    one_of (phrase ("flock" ∷ [])) (
      phrase ("alpr" ∷ [])
      ∷ phrase ("license" ∷ "plate" ∷ "reader" ∷ [])
      ∷ phrase ("predictive" ∷ "policing" ∷ [])
      ∷ phrase ("facial" ∷ "recognit" ∷ [])
      ∷ phrase ("surveillance" ∷ "camera" ∷ [])
      ∷ phrase ("gunshot" ∷ "detect" ∷ [])
      ∷ phrase ("shotspotter" ∷ [])
      ∷ phrase ("audit" ∷ "log" ∷ [])
      ∷ []))
pattern_of police_oversight = bounded (
    one_of (phrase ("citizen" ∷ "review" ∷ "board" ∷ [])) (
      phrase ("use" ∷ "of" ∷ "force" ∷ [])
      ∷ phrase ("police" ∷ "misconduct" ∷ [])
      ∷ phrase ("complaint" ∷ "review" ∷ [])
      ∷ seq (lit (codes "police"))
          (seq spaces (alt (lit (codes "accountab")) (lit (codes "oversight"))))
      ∷ phrase ("internal" ∷ "affairs" ∷ [])
      ∷ []))
pattern_of eminent_domain = bounded (
    one_of (phrase ("eminent" ∷ "domain" ∷ [])) (
      phrase ("condemnation" ∷ "for" ∷ "public" ∷ "use" ∷ [])
      ∷ phrase ("compulsory" ∷ "acquisition" ∷ [])
      ∷ phrase ("taking" ∷ "by" ∷ "the" ∷ "city" ∷ [])
      ∷ []))

-- `SUBJECT_MATTER_PATTERNS[m].search(text) is not None`
unfoldable pub mentions : (ℕ → Bool) → Matter → Text → Bool
unfolding found pattern_of
mentions word m s = found word (pattern_of m) s
