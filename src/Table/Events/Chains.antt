-- ===== src/Table/Events/Chains.antt =====
-- Lists in which each text is made of the one before.
use metadata.Prelude.{
  ℕ, zero, suc, ◌+◌, ◌≡◌, ap, ◌∙◌, List, [], ◌∷◌, ◌++◌, some, get_elem?, length, arith,
}
use metadata.Prelude.Texts.{Text}

-- Each token is the one that the server gives for the page before it.
abbrev pub AreChained : (Text → Text) → List Text → Type 0
AreChained next [] = Unit
AreChained next (t ∷ []) = Unit
AreChained next (t ∷ u ∷ ts) = (u ≡ next t) × AreChained next (u ∷ ts)

pub AreChained-concat :
    (next : Text → Text) (ts : List Text) (n : ℕ) (t : Text)
    → AreChained next ts
    → get_elem? ts n ≡ some t
    → n + 1 ≡ length ts
    → AreChained next (ts ++ next t ∷ [])
AreChained-concat next [] n t h e l = tt
AreChained-concat next (u ∷ []) zero t h e l = (ap next (cc), tt)
AreChained-concat next (u ∷ []) (suc n) t h e l = absurd (omega arith)
AreChained-concat next (u ∷ v ∷ ts) zero t h e l = absurd (omega arith)
AreChained-concat next (u ∷ v ∷ ts) (suc n) t h e l =
    (h.0, AreChained-concat next (v ∷ ts) n t h.1 e (omega arith))

pub AreChained-ext :
    (f g : Text → Text) (ts : List Text)
    → ((t : Text) → f t ≡ g t)
    → AreChained f ts
    → AreChained g ts
AreChained-ext f g [] e h = tt
AreChained-ext f g (t ∷ []) e h = tt
AreChained-ext f g (t ∷ u ∷ ts) e h = (h.0 ∙ e t, AreChained-ext f g (u ∷ ts) e h.1)
