-- ===== src/Confidence/Scores.antt =====
-- The bounds of the confidence score.
use atlas_alpha.Prelude.{
  ℕ, ◌+◌, ◌*◌, ◌≤◌, ◌<◌, ◌≡◌, Bool, List, [], ◌∷◌, arith, length, ltb, if◌then◌else◌,
}
use Prim.Native.Nat.{◌/◌, ◌%◌}
use native.Mathlib.Nat.{
  div-add-mod, div-le_of_le-mul, zero-div, zero-mod, mul-div_cancel, mul-mod_left,
}
use atlas_alpha.Actions.{ActionResult}
use atlas_alpha.Knowledge.{Entity}
use atlas_alpha.Confidence.{round_ratio, count_ok, score_confidence}

count_ok-le-length : (rs : List ActionResult) → count_ok rs ≤ length rs
unfolding count_ok
count_ok-le-length [] = omega arith
count_ok-le-length (r ∷ rs) = ground (arith, count_ok-le-length rs)

-- A quotient of 100 leaves no rest.
full_ratio : (ok total : ℕ) → ok ≤ total → 100 * ok / total ≡ 100 → (100 * ok) % total ≡ 0
full_ratio ok total h e =
    let parts : total * (100 * ok / total) + (100 * ok) % total ≡ 100 * ok =
      div-add-mod (100 * ok) total in
    let parts' : total * 100 + (100 * ok) % total ≡ 100 * ok = rw e at parts in omega arith

module _ (rounds_up : ℕ → ℕ → Bool) where
  round_ratio-le : (ok total : ℕ) → ok ≤ total → 0 < total → round_ratio rounds_up ok total ≤ 100
  unfolding round_ratio
  round_ratio-le ok total h p =
      let low : 100 * ok / total ≤ 100 = div-le_of_le-mul total (omega arith) in
      ground (arith, full_ratio ok total h)

  round_ratio-zero : (total : ℕ) → 0 < total → round_ratio rounds_up 0 total ≡ 0
  unfolding round_ratio
  round_ratio-zero total p = ground (arith, zero-div total, zero-mod total)

  round_ratio_self : (total : ℕ) → 0 < total → round_ratio rounds_up total total ≡ 100
  unfolding round_ratio
  round_ratio_self total p = ground (arith, mul-div_cancel 100 p, mul-mod_left 100 total)

  -- Of at least one action, the score is 100 hundredths where all succeeded and 0 where none did.
  -- Without actions it is 80 with retrieved knowledge and 50 without. It never passes 100.
  pub score_confidence_bounds :
      (rs : List ActionResult) (es : List Entity)
      → (score_confidence rounds_up rs es ≤ 100)
        × (0 < length rs → count_ok rs ≡ length rs → score_confidence rounds_up rs es ≡ 100)
        × (0 < length rs → count_ok rs ≡ 0 → score_confidence rounds_up rs es ≡ 0)
        × (length rs ≡ 0
            → score_confidence rounds_up rs es ≡ (if ltb 0 (length es) then 80 else 50))
  unfolding score_confidence
  score_confidence_bounds [] [] = ground arith
  score_confidence_bounds [] (e ∷ es) = ground arith
  score_confidence_bounds (r ∷ rs) es = (
    round_ratio-le (count_ok (r ∷ rs)) (length (r ∷ rs)) (count_ok-le-length (r ∷ rs))
        (omega arith),
    λ p all. rw all (round_ratio_self (length (r ∷ rs)) p),
    λ p nothing. rw nothing (round_ratio-zero (length (r ∷ rs)) p),
    λ empty. absurd (omega arith),
  )
