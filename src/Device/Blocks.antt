-- ===== src/Device/Blocks.antt =====
-- What one call of `read` on a reliable descriptor can answer: the loops that copy blocks branch on it.
use iteso_codigos.Common.{
  ℕ, suc, ◌+◌, ◌≤◌, ◌≡◌, sym, ap, ◌∙◌, some, [], ◌∷◌, ◌++◌, length, length-append,
}
use iteso_codigos.Common.Text.{Bytes}
use iteso_codigos.Device.{Device, IsLawful, IsReliable}

-- Either nothing is left to come, or a block comes that is not empty, and less is left.
pub data NextBlock (D : Device) (L : IsLawful D) (s : D.State) (n : ℕ) : Type 0 where
  ended :
      (D.read s n).0 ≡ some []
      → L.pending s ≡ []
      → L.pending (D.read s n).1 ≡ []
      → NextBlock D L s n
  block :
      (c : ℕ) (b : Bytes)
      → (D.read s n).0 ≡ some (c ∷ b)
      → L.pending s ≡ (c ∷ b) ++ L.pending (D.read s n).1
      → length (c ∷ b) ≤ n
      → length (L.pending s) ≡ length (c ∷ b) + length (L.pending (D.read s n).1)
      → NextBlock D L s n

module _ (D : Device) (L : IsLawful D) (R : IsReliable D) where
  pub read-NextBlock : (s : D.State) (n : ℕ) → NextBlock D L s (suc n)
  read-NextBlock s n =
      let (b, got) = R.reads s (suc n) in
      (elim b as (λ x. (D.read s (suc n)).0 ≡ some x → NextBlock D L s (suc n)) [
        | [] ↦ λ e.
            let (_, split) = L.read-some s (suc n) e in
            let empty = L.read-eof s n e in ended e empty (sym split ∙ empty)
        | c ∷ b' ↦ λ e.
            let (fits, split) = L.read-some s (suc n) e in
            block c b' e split fits (ap length split ∙ length-append (c ∷ b') _)
      ])
        got
