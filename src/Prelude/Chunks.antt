-- ===== src/Prelude/Chunks.antt =====
-- `slice::chunks`: pieces of at most `n` entries.
use Prim.Native.Nat.{ℕ, zero, suc, ◌≤◌, ◌<◌}
use mathlib.Core.Path.{◌≡◌, refl, ap, ◌∙◌}
use mathlib.Core.List.{List, [], ◌∷◌, ◌++◌}
use native.Mathlib.Omega.{arith}
use rsync_sjtug.Prelude.Lists.{length, take, drop, take-append-drop, length-drop}

module _ {ℓ} {A : Type ℓ} where
  -- Each round takes an entry at least, so `length xs` rounds are enough.
  unfoldable pub chunks_upto : ℕ → ℕ → List A → List (List A)
  chunks_upto zero n xs = []
  chunks_upto (suc f) n [] = []
  chunks_upto (suc f) n (x ∷ xs) = take n (x ∷ xs) ∷ chunks_upto f n (drop n (x ∷ xs))

  unfoldable pub chunks : ℕ → List A → List (List A)
  unfolding chunks_upto
  chunks n xs = chunks_upto (length xs) n xs

  abbrev pub concat : List (List A) → List A
  concat [] = []
  concat (xs ∷ xss) = xs ++ concat xss

  concat-chunks_upto :
      (f n : ℕ) (xs : List A) → 0 < n → length xs ≤ f → concat (chunks_upto f n xs) ≡ xs
  unfolding chunks_upto
  concat-chunks_upto zero n [] h k = refl
  concat-chunks_upto zero n (x ∷ xs) h k = absurd (omega arith)
  concat-chunks_upto (suc f) n [] h k = refl
  concat-chunks_upto (suc f) n (x ∷ xs) h k =
      ap (◌++◌ (take n (x ∷ xs)))
        (concat-chunks_upto f n (drop n (x ∷ xs)) h (omega (arith, length-drop n (x ∷ xs))))
      ∙ take-append-drop n (x ∷ xs)

  -- The pieces, one after the other, are the list.
  pub concat-chunks : (n : ℕ) (xs : List A) → 0 < n → concat (chunks n xs) ≡ xs
  unfolding chunks
  concat-chunks n xs h = concat-chunks_upto (length xs) n xs h (omega arith)
