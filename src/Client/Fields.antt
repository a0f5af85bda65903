-- ===== src/Client/Fields.antt =====
-- Texts in the fields of the client's messages.
use g_max_linked.Base.{
  ℕ, zero, suc, ◌-◌, ◌<◌, ◌≡◌, refl, false, List, [], ◌∷◌, ◌++◌, length, take_all, append_assoc,
  ◌==◌, arith,
}
use g_max_linked.Transaction.Act.{c_string}
use g_max_linked.Transaction.Pdu.{zeros}
use g_max_linked.Client.{text_field}

-- No byte is 0.
abbrev pub IsText : List ℕ → Type 0
IsText [] = Unit
IsText (c ∷ cs) = ((c == 0) ≡ false) × IsText cs

pub c_string-text : (t rest : List ℕ) → IsText t → c_string (t ++ 0 ∷ rest) ≡ t
unfolding c_string
c_string-text [] rest h = refl
c_string-text (c ∷ cs) rest h = rw (h.0, c_string-text cs rest h.1)

pub c_string-whole : (t : List ℕ) → IsText t → c_string t ≡ t
unfolding c_string
c_string-whole [] h = refl
c_string-whole (c ∷ cs) h = rw (h.0, c_string-whole cs h.1)

-- A text that leaves room for a 0 is read back.
pub c_string-text_field :
    (size : ℕ) (t rest : List ℕ)
    → IsText t
    → length t < size
    → c_string (text_field size t ++ rest) ≡ t
unfolding text_field
c_string-text_field size t rest h l =
    rw (c_string-whole t h, take_all (size - 1) t (omega arith))
      (padded (size - length t) (omega arith))
  where
    padded : (n : ℕ) → 0 < n → c_string ((t ++ zeros n) ++ rest) ≡ t
    padded zero p = absurd (omega arith)
    padded (suc n) p = rw (append_assoc t (0 ∷ zeros n) rest) (c_string-text t (zeros n ++ rest) h)
