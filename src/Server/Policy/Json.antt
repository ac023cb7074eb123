-- ===== src/Server/Policy/Json.antt =====
-- The escapes in the log.
use statika.Prelude.{
  refl, true, false, [], inl, inr, ◌∷◌, ◌≡◌, arith, ℕ, ◌<◌, ◌≤◌, ◌++◌, ◌/◌, ◌≢◌, ◌%◌, subst,
  Bool-cases, ◌*◌, ◌==◌, ◌+◌,
}
use statika.Prelude.Bytes.{Text, equal, equal_iff}
use statika.Prelude.Radix.{digit, pad, to_hex}
use statika.Prelude.Check.{holds_below, holds_below_lem}
use statika.Server.Policy.{escape_json, escape_char, is_control}

-- `Reads body text`: inside the quotes of a JSON string, `body` stands for `text`.
pub data Reads : Text → Text → Type 0 where
  end : Reads [] []
  plain : {cs t : Text} (c : ℕ) → 32 ≤ c → c ≢ 34 → c ≢ 92 → Reads cs t → Reads (c ∷ cs) (c ∷ t)
  quote : {cs t : Text} → Reads cs t → Reads (92 ∷ 34 ∷ cs) (34 ∷ t)
  backslash : {cs t : Text} → Reads cs t → Reads (92 ∷ 92 ∷ cs) (92 ∷ t)
  line_feed : {cs t : Text} → Reads cs t → Reads (92 ∷ b'n' ∷ cs) (10 ∷ t)
  carriage_return : {cs t : Text} → Reads cs t → Reads (92 ∷ b'r' ∷ cs) (13 ∷ t)
  tab : {cs t : Text} → Reads cs t → Reads (92 ∷ b't' ∷ cs) (9 ∷ t)
  unicode :
      {cs t : Text} (a b c d : ℕ)
      → a < 16
      → b < 16
      → c < 16
      → d < 16
      → Reads cs t
      → Reads
          (92 ∷ b'u' ∷ digit a ∷ digit b ∷ digit c ∷ digit d ∷ cs)
          ((a * 4096 + b * 256 + c * 16 + d) ∷ t)

four_digits :
    holds_below 160 (λ c. equal (pad 4 (to_hex c)) (48 ∷ 48 ∷ digit (c / 16) ∷ digit (c % 16) ∷ []))
    ≡ true
unfolding holds_below equal pad to_hex
four_digits = refl

pad-to_hex : (c : ℕ) → c < 160 → pad 4 (to_hex c) ≡ 48 ∷ 48 ∷ digit (c / 16) ∷ digit (c % 16) ∷ []
pad-to_hex c h = (equal_iff _ _).0 (holds_below_lem 160 _ c four_digits h)

escape_unicode :
    (c : ℕ) (cs t : Text)
    → c < 160
    → Reads cs t
    → Reads (92 ∷ b'u' ∷ (pad 4 (to_hex c) ++ cs)) (c ∷ t)
escape_unicode c cs t h r = rw (pad-to_hex c h) (
    subst (λ n. Reads (92 ∷ b'u' ∷ 48 ∷ 48 ∷ digit (c / 16) ∷ digit (c % 16) ∷ cs) (n ∷ t))
      (omega arith)
      (unicode 0 0 (c / 16) (c % 16) (omega arith) (omega arith) (omega arith) (omega arith) r))

control_bound : (c : ℕ) → is_control c ≡ true → c < 160
unfolding is_control
control_bound c h = ground arith

not_control_bound : (c : ℕ) → is_control c ≡ false → 32 ≤ c
unfolding is_control
not_control_bound c h = ground arith

escape_char-Reads : (c : ℕ) (cs t : Text) → Reads cs t → Reads (escape_char c ++ cs) (c ∷ t)
unfolding escape_char
escape_char-Reads c cs t r = elim (Bool-cases (c == 34)) [
  | inl e ↦ rw e (subst (λ n. Reads (92 ∷ 34 ∷ cs) (n ∷ t)) (ground arith) (quote r))
  | inr n1 ↦ elim (Bool-cases (c == 92)) [
    | inl e ↦ simp (n1, e) (subst (λ n. Reads (92 ∷ 92 ∷ cs) (n ∷ t)) (ground arith) (backslash r))
    | inr n2 ↦ elim (Bool-cases (c == 10)) [
      | inl e ↦
          simp (n1, n2, e)
            (subst (λ n. Reads (92 ∷ b'n' ∷ cs) (n ∷ t)) (ground arith) (line_feed r))
      | inr n3 ↦ elim (Bool-cases (c == 13)) [
        | inl e ↦
            simp (n1, n2, n3, e)
              (subst (λ n. Reads (92 ∷ b'r' ∷ cs) (n ∷ t)) (ground arith) (carriage_return r))
        | inr n4 ↦ elim (Bool-cases (c == 9)) [
          | inl e ↦
              simp (n1, n2, n3, n4, e)
                (subst (λ n. Reads (92 ∷ b't' ∷ cs) (n ∷ t)) (ground arith) (tab r))
          | inr n5 ↦ elim (Bool-cases (is_control c)) [
            | inl e ↦ simp (n1, n2, n3, n4, n5, e) (escape_unicode c cs t (control_bound c e) r)
            | inr e ↦
                simp (n1, n2, n3, n4, n5, e)
                  (plain c (not_control_bound c e) (ground arith) (ground arith) r)
          ]
        ]
      ]
    ]
  ]
]

-- What `escape_json` writes is the body of a JSON string that stands for its text: no quote, no
-- backslash and no control character of the text ends or breaks the string.
pub escape_json-Reads : (text : Text) → Reads (escape_json text) text
unfolding escape_json
escape_json-Reads [] = end
escape_json-Reads (c ∷ cs) = escape_char-Reads c (escape_json cs) cs (escape_json-Reads cs)
