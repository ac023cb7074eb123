-- ===== src/Prelude/Split.antt =====
-- What the pieces of a split are.
use Prim.Native.Nat.{ℕ}
use mathlib.Core.Path.{◌≡◌, refl, ap, ◌∙◌}
use mathlib.Core.Logic.{inl, inr, ◌≢◌}
use mathlib.Core.Bool.{Bool, true, false}
use mathlib.Core.List.{List, [], ◌∷◌, ◌++◌}
use native.Mathlib.Omega.{arith}
use statika.Prelude.Tests.{◌==◌, if◌then◌else◌, Bool-cases}
use statika.Prelude.Lists.{any, All}
use statika.Prelude.Bytes.{Bytes, split, split_on, cons_head}

-- The pieces with a separator between them.
unfoldable pub join : ℕ → List Bytes → Bytes
join b [] = []
join b (w ∷ []) = w
join b (w ∷ v ∷ ws) = w ++ (b ∷ join b (v ∷ ws))

module _ (p : ℕ → Bool) where
  pub split_free : (w : Bytes) → any p w ≡ false → split p w ≡ w ∷ []
  unfolding split
  split_free [] h = refl
  split_free (c ∷ cs) h = ground (arith, split_free cs)

  pub split-append :
      (w : Bytes) (c : ℕ) (rest : Bytes)
      → any p w ≡ false
      → p c ≡ true
      → split p (w ++ c ∷ rest) ≡ w ∷ split p rest
  unfolding split
  split-append [] c rest h e = ground arith
  split-append (d ∷ ds) c rest h e = ground (arith, split-append ds c rest)

  All-cons_head :
      (c : ℕ) (ws : List Bytes)
      → p c ≡ false
      → All (λ w. any p w ≡ false) ws
      → All (λ w. any p w ≡ false) (cons_head c ws)
  All-cons_head c [] h a = ground arith
  All-cons_head c (w ∷ ws) h a = ground arith

  -- No piece holds a separator.
  pub split_pieces : (bs : Bytes) → All (λ w. any p w ≡ false) (split p bs)
  unfolding split
  split_pieces [] = (refl, tt)
  split_pieces (c ∷ cs) = elim (Bool-cases (p c)) [
    | inl e ↦ rw e (refl, split_pieces cs)
    | inr e ↦ rw e (All-cons_head c (split p cs) e (split_pieces cs))
  ]

  -- There is a first piece.
  pub split-ne-nil : (bs : Bytes) → split p bs ≢ []
  unfolding split
  split-ne-nil [] h = cc
  split-ne-nil (c ∷ cs) h = go (p c) (split p cs) h
    where
      go : (b : Bool) (ws : List Bytes) → (if b then [] ∷ ws else cons_head c ws) ≡ [] → ⊥
      go true ws e = cc
      go false [] e = cc
      go false (w ∷ ws) e = cc

-- Each piece is made of bytes of the whole.
module _ {ℓ} (Q : ℕ → Type ℓ) (p : ℕ → Bool) where
  All-cons_head_bytes :
      (c : ℕ) (ws : List Bytes) → Q c → All (All Q) ws → All (All Q) (cons_head c ws)
  All-cons_head_bytes c [] h a = ((h, tt), tt)
  All-cons_head_bytes c (w ∷ ws) h a = ((h, a.0), a.1)

  pub split_bytes : (bs : Bytes) → All Q bs → All (All Q) (split p bs)
  unfolding split
  split_bytes [] h = (tt, tt)
  split_bytes (c ∷ cs) h = elim (Bool-cases (p c)) [
    | inl e ↦ rw e (tt, split_bytes cs h.1)
    | inr e ↦ rw e (All-cons_head_bytes c (split p cs) h.0 (split_bytes cs h.1))
  ]

abbrev pub Free : ℕ → Bytes → Type 0
Free b w = any (λ c. c == b) w ≡ false

-- Joined pieces that hold no separator are split as they were.
pub split-join :
    (b : ℕ) (w : Bytes) (ws : List Bytes)
    → Free b w
    → All (Free b) ws
    → split_on b (join b (w ∷ ws)) ≡ w ∷ ws
unfolding join
split-join b w [] h a = split_free (λ c. c == b) w h
split-join b w (v ∷ ws) h a =
    split-append (λ c. c == b) w b (join b (v ∷ ws)) h (ground arith)
    ∙ ap (◌∷◌ w) (split-join b v ws a.0 a.1)
