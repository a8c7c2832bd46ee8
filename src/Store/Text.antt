-- ===== src/Store/Text.antt =====
-- Strings as C sees them: up to the first NUL.
use embkv.Base.{◌≡◌, ◌≢◌, refl, Bool, true, false, ◌&&◌, [], ◌∷◌, arith, All, ◌==◌, if◌then◌else◌}
use embkv.Proto.{Bytes}

unfoldable pub c_str : Bytes → Bytes
c_str [] = []
c_str (b ∷ bs) = if b == 0 then [] else b ∷ c_str bs

-- No NUL.
abbrev pub IsText : Bytes → Type 0
IsText = All (λ b. b ≢ 0)

unfoldable pub bytes_eq : Bytes → Bytes → Bool
bytes_eq [] [] = true
bytes_eq [] (c ∷ cs) = false
bytes_eq (b ∷ bs) [] = false
bytes_eq (b ∷ bs) (c ∷ cs) = b == c && bytes_eq bs cs

pub c_str-IsText : (bs : Bytes) → IsText (c_str bs)
unfolding c_str
c_str-IsText [] = tt
c_str-IsText (b ∷ bs) = ground (arith, c_str-IsText bs)

pub c_str-eq_text : (bs : Bytes) → IsText bs → c_str bs ≡ bs
unfolding c_str
c_str-eq_text [] h = refl
c_str-eq_text (b ∷ bs) h = ground (arith, c_str-eq_text bs h.1, h.0)

pub bytes_eq_refl : (bs : Bytes) → bytes_eq bs bs ≡ true
unfolding bytes_eq
bytes_eq_refl [] = refl
bytes_eq_refl (b ∷ bs) = ground (arith, bytes_eq_refl bs)
